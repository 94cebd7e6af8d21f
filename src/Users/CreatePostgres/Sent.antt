-- ===== src/Users/CreatePostgres/Sent.antt =====
-- What the form for a user of the databases sends.
use pgmanager.Common.{
  ◌≡◌, ◌≢◌, ◌↔◌, refl, false, inl, none, some, List, [], ◌∷◌, Text, trim, is_nil, if◌then◌else◌,
  arith,
}
use pgmanager.Names.{Checked, ok, bad, parse_name}
use pgmanager.Names.Identifier.{IsIdentifier, parse_name_iff}
use pgmanager.Users.CreatePostgres.{Form, Vars, safe_parse, parsed, handle_submit, click_create}

-- What the form has to hold: databases, and a name that is an identifier up to blanks.
abbrev pub IsComplete : Form → Type 0
IsComplete f = (f.selected_dbs ≢ []) × IsIdentifier (trim f.username)

-- What a complete form sends.
abbrev pub told : Form → Vars
told f = record {
  username = trim f.username;
  databases = f.selected_dbs;
  access = f.access;
  allowed_ips = if is_nil f.allowed_ips then none else some f.allowed_ips;
}

parsed_sound :
    (f : Form) (c : Checked) (v : Vars)
    → parse_name f.username ≡ c
    → (parsed f (inl c)).1 ≡ some v
    → IsIdentifier (trim f.username) × (v ≡ told f)
unfolding parsed
parsed_sound f (bad e) v p h = ground arith
parsed_sound f (ok name) v p h =
    let q = (parse_name_iff f.username name).0 p in (q.1, ground (arith, q.0))

parsed_complete :
    (f : Form)
    → IsIdentifier (trim f.username)
    → (parsed f (inl (parse_name f.username))).1 ≡ some (told f)
unfolding parsed
parsed_complete f i =
    let e : parse_name f.username ≡ ok (trim f.username) =
      (parse_name_iff f.username (trim f.username)).1 (refl, i) in
    rw e (ground arith)

-- A click on "Create" while nothing is under way sends a user exactly if a database is selected and
-- the name, without the blanks at its ends, is an identifier of at most 63 units; what it sends is
-- that name with the databases, the access, and the addresses if there are any.
pub click_create_iff :
    (f : Form) (v : Vars) → ((click_create false f).1 ≡ some v) ↔ (IsComplete f × (v ≡ told f))
unfolding click_create handle_submit safe_parse
click_create_iff f v = by_databases f.selected_dbs
  where
    by_databases :
        (ds : List Text)
        → let g : Form = record f { selected_dbs = ds } in
          ((click_create false g).1 ≡ some v) ↔ (IsComplete g × (v ≡ told g))
    by_databases [] = (λ h. ground arith, λ k. absurd (k.0.0 refl))
    by_databases (d ∷ ds) =
        let g : Form = record f { selected_dbs = d ∷ ds } in
        (
          λ h.
              let (i, e) = parsed_sound g (parse_name g.username) v refl h in
              ((λ p. ground arith, i), e),
          λ k. rw (k.1) (parsed_complete g (k.0.1)),
        )
