-- ===== src/Users/Credentials/Shown.antt =====
-- How long the credentials of a new user are shown.
use pgmanager.Common.{
  run_keep_when, ◌≡◌, refl, ap, true, Option, some, List, [], ◌∷◌, map, Text, or_else, All,
}
use pgmanager.Users.Panel.{
  Half, Event, click_create, click_edit, click_reset, close_create, close_edit, close_reset,
  close_creds, created, deletion, step, steps,
}
use pgmanager.Users.CreatePostgres
use pgmanager.Users.Credentials.{of_postgres, is_open, copy_text}

module _ {U C : Type 0} where
  -- An event that is neither the closing of the credentials nor another creation.
  abbrev pub KeepsCreds : Event U C → Type 0
  KeepsCreds close_creds = ⊥
  KeepsCreds (created c) = ⊥
  KeepsCreds e = Unit

  step-show_creds :
      (c : C) (e : Event U C) (s : Half U C)
      → KeepsCreds e
      → s.show_creds ≡ some c
      → (step U C e s).show_creds ≡ some c
  unfolding step
  step-show_creds c close_creds s k h = absurd k
  step-show_creds c (created d) s k h = absurd k
  step-show_creds c click_create s k h = h
  step-show_creds c (click_edit u) s k h = h
  step-show_creds c (click_reset u) s k h = h
  step-show_creds c close_create s k h = h
  step-show_creds c close_edit s k h = h
  step-show_creds c close_reset s k h = h
  step-show_creds c (deletion e) s k h = h

  pub steps-show_creds :
      (c : C) (es : List (Event U C)) (s : Half U C)
      → All KeepsCreds es
      → (steps U C (created c ∷ es) s).show_creds ≡ some c
  unfolding steps step
  steps-show_creds c es s k =
      run_keep_when (step U C) (λ t. t.show_creds ≡ some c) KeepsCreds (step-show_creds c) es
        (step U C (created c) s) k refl

-- The texts that the copying of each line brings into the clipboard.
abbrev pub copies : Option CreatePostgres.Credentials → List (Option Text)
copies show_creds = map (λ c. (copy_text c true).0) (of_postgres show_creds)

-- What the credentials are to the dialog: it is open, and its lines copy the name, the password and
-- the connection string.
abbrev pub Shows : CreatePostgres.Credentials → Option CreatePostgres.Credentials → Type 0
Shows c show_creds =
    (is_open show_creds ≡ true)
    × (copies show_creds ≡ some c.username ∷ some c.password ∷ some c.connection_string ∷ [])

-- When the server has created a user of the databases and the dialog for it has told the page, then
-- after any events of the page but the closing of the credentials and another creation, the dialog
-- with the credentials is still open, and its lines bring the name, the password and the connection
-- string that the server returned into the clipboard.
pub created-Shows :
    {U : Type 0} (c told : CreatePostgres.Credentials) (f : CreatePostgres.Form)
    (es : List (Event U CreatePostgres.Credentials)) (s : Half U CreatePostgres.Credentials)
    → (CreatePostgres.settled (CreatePostgres.created c) f).1.1 ≡ some told
    → All KeepsCreds es
    → Shows c (steps U CreatePostgres.Credentials (created told ∷ es) s).show_creds
unfolding CreatePostgres.settled of_postgres copy_text is_open
created-Shows c told f es s h k =
    let same : c ≡ told = ap (λ o. or_else o c) h in
    rw (steps-show_creds told es s k, same) (refl, refl)
