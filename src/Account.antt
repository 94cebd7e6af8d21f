-- ===== src/Account.antt =====
-- What a visitor and a user do with their account: `login` and `logout` of
-- backend/ui/src/contexts/AuthContext.tsx with the requests that they wait for, and the forms of
-- routes/Login.tsx, routes/Setup.tsx and routes/Profile.tsx. A request that fails raises its message.
pub mod Login
pub mod Setup
pub mod Profile
use pgmanager.Common.{Text, Bool, true, false, Option, none, some}
use pgmanager.Schemas.{AuthUser}
use pgmanager.Auth.{Session}

pub data Result (A : Type 0) : Type 0 where
  ok : A → Result A
  err : Text → Result A

-- The server, in the states `W`: what it does with the requests.
pub record Server (W : Type 0) : Type 0 where
  pub setup : Text → Text → W → Result Unit × W
  pub login : Text → Text → W → Result Unit × W
  pub logout : W → Result Unit × W
  pub fetch_me : W → Result AuthUser × W

pub record World (W : Type 0) : Type 0 where
  pub session : Session
  pub server : W

-- What runs until a request fails; what was done until then stays.
abbrev pub Action : Type 0 → Type 0 → Type 0
Action W A = World W → Result A × World W

infixl 5 ◌>>=◌ ◌>>◌
abbrev pub ◌>>=◌ : {W A B : Type 0} → Action W A → (A → Action W B) → Action W B
◌>>=◌ m f w = let (r, w') = m w in elim r [ ok a ↦ f a w' | err e ↦ (err e, w') ]

abbrev pub ◌>>◌ : {W A B : Type 0} → Action W A → Action W B → Action W B
m >> k = m >>= λ _. k

-- `await` of a request
abbrev pub call : {W A : Type 0} → (W → Result A × W) → Action W A
call f w = let (r, server) = f w.server in (r, record w { server = server })

abbrev pub modify : {W : Type 0} → (Session → Session) → Action W Unit
modify f w = (ok tt, record w { session = f w.session })

module _ {W : Type 0} (S : Server W) where
  unfoldable pub login : Text → Text → Action W Unit
  login username password = do
    call (S.login username password)
    data_of ← call S.fetch_me
    modify (λ s. record s { user = some data_of })
    modify (λ s. record s { needs_setup = false })

  unfoldable pub logout : Action W Unit
  logout = do call S.logout; modify (λ s. record s { user = none })

-- What a form shows after its submission, and whether it has left for the page "/".
pub record Left : Type 0 where
  pub loading : Bool
  pub error : Option Text
  pub navigated : Bool

-- `try … navigate("/") catch … finally …`
unfoldable pub settle : {W : Type 0} → Result Unit × World W → Left × World W
settle (ok _, w) = (record { loading = false; error = none; navigated = true }, w)
settle (err m, w) = (record { loading = false; error = some m; navigated = false }, w)
