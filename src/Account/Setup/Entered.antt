-- ===== src/Account/Setup/Entered.antt =====
-- Where the first account leads.
use pgmanager.Names.Identifier.{IsStart, IsPart}
use pgmanager.Common.{
  ℕ, All, [], ◌∷◌, ◌≤◌, ◌≡◌, true, false, Text, text_eq_refl, length, none, some, arith,
}
use pgmanager.Schemas.{admin}
use pgmanager.Auth.{root, shows, databases_table, users_at, users, view, app_routes}
use pgmanager.Account.{ok, err, Server, World, login, settle}
use pgmanager.Account.Setup.{first_error, create_admin, checked, handle_submit}

-- The names that the server takes: a letter of ASCII or an underscore, then letters, digits and
-- underscores.
abbrev pub IsName : Text → Type 0
IsName [] = ⊥
IsName (c ∷ s) = IsStart c × All IsPart s

-- What the server takes for the first account; `bytes` is the length of a text in UTF-8.
abbrev pub IsAccepted : (Text → ℕ) → Text → Text → Type 0
IsAccepted bytes u p = IsName u × (3 ≤ length u) × (8 ≤ bytes p) × (bytes p ≤ 72)

-- What the server promises: with no account yet, a name and a password that it takes make the first
-- one, and then that name and password are let in as an admin.
pub record SetsUp {W : Type 0} (S : Server W) (fresh : W → Type 0) (bytes : Text → ℕ) : Type 0 where
  pub sets_up : (u p : Text) (w : W) → fresh w → IsAccepted bytes u p → (S.setup u p w).0 ≡ ok tt
  pub lets_in :
      (u p : Text) (w : W)
      → fresh w
      → IsAccepted bytes u p
      → (S.login u p (S.setup u p w).1).0 ≡ ok tt
  pub knows :
      (u p : Text) (w : W)
      → fresh w
      → IsAccepted bytes u p
      → (S.fetch_me (S.login u p (S.setup u p w).1).1).0
        ≡ ok (record { username = u; role = admin })

no_error : (u p : Text) → 3 ≤ length u → 8 ≤ length p → first_error u p p ≡ none
unfolding first_error
no_error u p h k = let same = text_eq_refl p in ground arith

module _ {W : Type 0} (S : Server W) (fresh : W → Type 0) (bytes : Text → ℕ)
    (laws : SetsUp S fresh bytes) where
  -- On such a server without an account, who gives a name that it takes, of 3 characters or more, and
  -- twice the same password of 8 characters or more and 72 bytes at most, is logged in as an admin,
  -- leaves the form without an error, and is shown the page of the databases and that of the users.
  pub handle_submit-entered :
      (u p : Text) (w : World W)
      → fresh w.server
      → IsAccepted bytes u p
      → 8 ≤ length p
      → w.session.loading ≡ false
      → let (left, after) = handle_submit S u p p w in
        ((left.error ≡ none) × (left.navigated ≡ true))
        × ((view after.session root ≡ shows databases_table)
            × (view after.session users_at ≡ shows users))
  unfolding handle_submit checked settle create_admin login view app_routes
  handle_submit-entered u p w f h k l =
      let n = no_error u p h.1 k in
      let a = laws.sets_up u p w.server f h in
      let b = laws.lets_in u p w.server f h in
      let c = laws.knows u p w.server f h in ground (arith, n, a, b, c)

module _ {W : Type 0} (S : Server W) where
  -- A name or a password that the form takes and the server refuses, such as a password of more than 72
  -- bytes: the form shows the server's error and stays, and the session is the one before.
  pub handle_submit-refused :
      (u p m : Text) (w : World W)
      → 3 ≤ length u
      → 8 ≤ length p
      → (S.setup u p w.server).0 ≡ err m
      → let (left, after) = handle_submit S u p p w in
        ((left.error ≡ some m) × (left.navigated ≡ false)) × (after.session ≡ w.session)
  unfolding handle_submit checked settle create_admin login
  handle_submit-refused u p m w h k e = let n = no_error u p h k in ground arith

module _ {W : Type 0} (S : Server W) where
  -- If the account is made and the login after it fails, then the form shows that error and the
  -- session is the one before, so that the form stays there, while the server has the account.
  pub handle_submit-half :
      (u p m : Text) (w : World W)
      → 3 ≤ length u
      → 8 ≤ length p
      → (S.setup u p w.server).0 ≡ ok tt
      → (S.login u p (S.setup u p w.server).1).0 ≡ err m
      → let (left, after) = handle_submit S u p p w in
        ((left.error ≡ some m) × (left.navigated ≡ false))
        × ((after.session ≡ w.session) × (after.server ≡ (S.login u p (S.setup u p w.server).1).1))
  unfolding handle_submit checked settle create_admin login
  handle_submit-half u p m w h k e f = let n = no_error u p h k in ground arith
