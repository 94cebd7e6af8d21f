-- ===== src/Settings/Ssl/Actions.antt =====
-- backend/ui/src/routes/Settings.tsx, "SSL / TLS": the five mutations with the query of the status and
-- the status that the server has, on which `apply` says what an action does that it accepts.
pub mod Coherent
use pgmanager.Common.{
  run, text_eq, ℕ, Bool, true, false, not, ◌&&◌, ◌==◌, Option, none, some, List, [], ◌∷◌, Text,
  text, is_some, if◌then◌else◌,
}
use pgmanager.Ui.{Effect, invalidate}
use pgmanager.Settings.Ssl
use pgmanager.Settings.Ssl.{Card, Status, handle_upload}

pub data Action : Type 0 where
  generate_certs upload_certs enable_certs disable_certs delete_certs : Action

abbrev pub number : Action → ℕ
number generate_certs = 0
number upload_certs = 1
number enable_certs = 2
number disable_certs = 3
number delete_certs = 4

-- The effects of `onSuccess`.
unfoldable pub success_effects : Action → List Effect
success_effects generate_certs = invalidate (text "ssl-status" ∷ []) ∷ []
success_effects upload_certs = invalidate (text "ssl-status" ∷ []) ∷ []
success_effects enable_certs = invalidate (text "ssl-status" ∷ []) ∷ []
success_effects disable_certs = invalidate (text "ssl-status" ∷ []) ∷ []
success_effects delete_certs = invalidate (text "ssl-status" ∷ []) ∷ []

-- A mutation: none is under way, its request is, or the server has done it and its answer is under
-- way.
pub data Stage : Type 0 where
  resting sent done : Stage

-- The query: idle, asked of the server, or answered by it with a status that is not received yet.
pub data Fetch : Type 0 where
  idle asked : Fetch
  read : Status → Fetch

-- An invalidation of the query, which has data then, asks anew; a fetch that is under way is given up.
unfoldable pub refetched : List Effect → Fetch → Fetch
refetched [] f = f
refetched (invalidate (k ∷ []) ∷ es) f =
    if text_eq k (text "ssl-status") then asked else refetched es f
refetched (e ∷ es) f = refetched es f

module _ (File : Type 0) where
  -- `status` is the data of the query.
  pub record Page : Type 0 where
    pub card : Card File
    pub status : Option Status
    pub fetch : Fetch
    pub stage : Action → Stage
    pub server : Status

  unfoldable pub opened : Status → Page
  opened server = record {
    card = Ssl.opened File;
    status = none;
    fetch = asked;
    stage = λ a. resting;
    server = server;
  }

  -- `sslLoading`, while the page shows a placeholder instead of the card
  abbrev is_pending : Fetch → Bool
  is_pending idle = false
  is_pending f = true

  unfoldable pub is_loading : Page → Bool
  is_loading s = not (is_some s.status) && is_pending s.fetch

  on_status : (Status → Bool) → Option Status → Bool
  on_status p none = false
  on_status p (some st) = p st

  -- Whether the button of an action is there, and for an upload the files that it needs.
  unfoldable pub is_offered : Action → Page → Bool
  unfolding on_status
  is_offered generate_certs s = s.card.show_generate_form
  is_offered upload_certs s = s.card.show_upload_form && is_some (handle_upload File s.card)
  is_offered enable_certs s = on_status (λ st. st.has_certs && not st.enabled) s.status
  is_offered disable_certs s = on_status (λ st. st.has_certs && st.enabled) s.status
  is_offered delete_certs s = on_status (λ st. st.has_certs) s.status

  abbrev pub set_stage : Action → Stage → Page → Page
  set_stage a st s = record s { stage = λ x. if number a == number x then st else s.stage x }

  clicked : Stage → Action → Page → Page
  clicked resting a s = if is_offered a s && not (is_loading s) then set_stage a sent s else s
  clicked st a s = s

  -- A click on the button of an action, which is disabled while the action is under way.
  unfoldable pub click : Action → Page → Page
  unfolding clicked
  click a s = clicked (s.stage a) a s

  -- The forms that `onSuccess` closes.
  closed : Action → Card File → Card File
  closed generate_certs c = Ssl.step File Ssl.generated c
  closed upload_certs c = Ssl.step File Ssl.uploaded c
  closed a c = c

  succeeded : Stage → Action → Page → Page
  unfolding closed success_effects refetched
  succeeded done a s =
      set_stage a resting
        (record s { card = closed a s.card; fetch = refetched (success_effects a) s.fetch })
  succeeded st a s = s

  -- The server's answer that it has done an action: `onSuccess`.
  unfoldable pub on_success : Action → Page → Page
  unfolding succeeded
  on_success a s = succeeded (s.stage a) a s

  -- The query is asked anew, say because the window is in front again; a fetch that is under way goes on.
  asking : Fetch → Page → Page
  asking idle s = record s { fetch = asked }
  asking f s = s

  answered : Fetch → Page → Page
  answered asked s = record s { fetch = read s.server }
  answered f s = s

  received : Fetch → Page → Page
  received (read st) s = record s { status = some st; fetch = idle }
  received f s = s

  ends : Stage → Stage → Action → Page → Page
  ends sent sent a s = set_stage a resting s
  ends done done a s = set_stage a resting s
  ends st st' a s = s

  module _ (apply : Action → Status → Status) where
    performed : Stage → Action → Page → Page
    performed sent a s = set_stage a done (record s { server = apply a s.server })
    performed st a s = s

    -- The server does an action or refuses it, its answer arrives or is lost; the query is asked, the
    -- server answers it, and the answer arrives or is lost. A mutation has no `onError`.
    pub data Event : Type 0 where
      input : Ssl.Event File → Event
      clicks performs succeeds refuses loses : Action → Event
      asks answers receives fetch_fails : Event

    unfoldable pub step : Event → Page → Page
    unfolding click performed on_success asking answered received ends
    step (input e) s = if is_loading s then s else record s { card = Ssl.step File e s.card }
    step (clicks a) s = click a s
    step (performs a) s = performed (s.stage a) a s
    step (succeeds a) s = on_success a s
    step (refuses a) s = ends sent (s.stage a) a s
    step (loses a) s = ends done (s.stage a) a s
    step asks s = asking s.fetch s
    step answers s = answered s.fetch s
    step receives s = received s.fetch s
    step fetch_fails s = record s { fetch = idle }

    unfoldable pub steps : List Event → Page → Page
    unfolding step
    steps es s = run step es s
