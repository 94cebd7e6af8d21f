-- ===== src/Settings/Access/Settled.antt =====
-- What the list shows when nothing is under way any more.
use pgmanager.Common.{
  ◌≡◌, refl, ap, Bool, true, false, Option, none, some, List, arith, ◌⊎◌, inl, inr,
}
use pgmanager.Settings.Access.{
  PgbouncerDatabase, Toggle, update_data, Fetch, idle, asked, read, Query, on_mutate, on_error,
  on_settled, Pending, State, opened, Step, click, done, succeeded, failed, ask, answer, receive,
  fetch_failed, Reach, here, later,
}

-- A change that the server refuses leaves the list as it was before the click, whether it was loaded
-- or not; only a fetch that was under way is given up for a new one.
pub on_error-on_mutate :
    (v : Toggle) (q : Query)
    → on_settled (on_error (on_mutate v q).1 (on_mutate v q).0) ≡ record q { fetch = asked }
unfolding on_mutate on_error on_settled update_data
on_error-on_mutate v q = by_cache q.cache
  where
    by_cache :
        (c : Option (List PgbouncerDatabase))
        → let p : Query = record q { cache = c } in
          on_settled (on_error (on_mutate v p).1 (on_mutate v p).0) ≡ record p { fetch = asked }
    by_cache none = refl
    by_cache (some dbs) = refl

-- What the answer that is awaited holds, and what the cache does, with no change under way.
abbrev Fresh : List PgbouncerDatabase → Option (List PgbouncerDatabase) → Bool → Fetch → Type 0
Fresh server cache is_error asked = Unit
Fresh server cache is_error (read dbs) = dbs ≡ server
Fresh server cache is_error idle = (is_error ≡ true) ⊎ (cache ≡ some server)

abbrev FreshWhen : Option Pending → State → Type 0
FreshWhen none s = Fresh s.server s.query.cache s.query.is_error s.query.fetch
FreshWhen (some p) s = Unit

abbrev IsFresh : State → Type 0
IsFresh s = FreshWhen s.pending s

asked-FreshWhen : (o : Option Pending) (s : State) → s.query.fetch ≡ asked → FreshWhen o s
asked-FreshWhen (some p) s e = tt
asked-FreshWhen none s e = rw e tt

read-FreshWhen : (o : Option Pending) (s : State) → s.query.fetch ≡ read s.server → FreshWhen o s
read-FreshWhen (some p) s e = tt
read-FreshWhen none s e = rw e refl

received-FreshWhen :
    (o : Option Pending) (s : State) (dbs : List PgbouncerDatabase)
    → s.query.fetch ≡ read dbs
    → FreshWhen o s
    → FreshWhen o (record s { query = record { cache = some dbs; fetch = idle; is_error = false } })
received-FreshWhen (some p) s dbs e h = tt
received-FreshWhen none s dbs e h = inr (ap some (rw e at h))

failed-FreshWhen :
    (o : Option Pending) (s : State)
    → FreshWhen o (record s { query = record s.query { fetch = idle; is_error = true } })
failed-FreshWhen (some p) s = tt
failed-FreshWhen none s = inl refl

step-IsFresh : (s t : State) → Step s t → IsFresh s → IsFresh t
unfolding on_settled
step-IsFresh _ _ (click s v n) h = tt
step-IsFresh _ _ (done s p e d) h = tt
step-IsFresh _ _ (succeeded s p e d) h = tt
step-IsFresh _ _ (failed s p e) h = tt
step-IsFresh _ _ (ask s) h =
    asked-FreshWhen s.pending (record s { query = on_settled s.query }) refl
step-IsFresh _ _ (answer s e) h =
    read-FreshWhen s.pending (record s { query = record s.query { fetch = read s.server } }) refl
step-IsFresh _ _ (receive s dbs e) h = received-FreshWhen s.pending s dbs e h
step-IsFresh _ _ (fetch_failed s) h = failed-FreshWhen s.pending s

Reach-IsFresh : (s t : State) → Reach s t → IsFresh s → IsFresh t
Reach-IsFresh _ _ (here s) h = h
Reach-IsFresh _ _ (later s t u r e) h = step-IsFresh t u e (Reach-IsFresh s t r h)

fresh_idle :
    (s : State)
    → s.pending ≡ none
    → s.query.fetch ≡ idle
    → s.query.is_error ≡ false
    → IsFresh s
    → s.query.cache ≡ some s.server
fresh_idle s e f g h = elim (rw (e, f) at h) [
  | inl broken ↦ ground (arith, g, broken)
  | inr same ↦ same
]

-- Whatever is clicked, and however the clicks, the server's changes, refusals, lost answers and
-- fetches interleave: when no change and no fetch is under way and the last fetch did not fail, the
-- list that is shown is the server's.
pub opened-Reach-cache :
    (dbs : List PgbouncerDatabase) (s : State)
    → Reach (opened dbs) s
    → s.pending ≡ none
    → s.query.fetch ≡ idle
    → s.query.is_error ≡ false
    → s.query.cache ≡ some s.server
unfolding opened
opened-Reach-cache dbs s r e f g = fresh_idle s e f g (Reach-IsFresh (opened dbs) s r tt)
