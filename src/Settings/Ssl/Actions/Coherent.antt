-- ===== src/Settings/Ssl/Actions/Coherent.antt =====
-- What the card shows of the server's certificates.
use pgmanager.Common.{◌≡◌, ◌⊎◌, some}
use pgmanager.Settings.Ssl.{Status}
use pgmanager.Settings.Ssl.Actions.{
  Action, done, idle, asked, read, Page, Event, loses, fetch_fails,
}

module _ {File : Type 0} (apply : Action → Status → Status) where
  -- The query is asked, or the server has done an action whose answer is under way, or what it has
  -- read is its status, or the data of the query are.
  IsCoherent : Page File → Type 0
  IsCoherent s =
      (s.fetch ≡ asked)
      ⊎ (((a : Action) × (s.stage a ≡ done))
          ⊎ ((s.fetch ≡ read s.server) ⊎ ((s.fetch ≡ idle) × (s.status ≡ some s.server))))

  -- No answer is lost.
  abbrev pub IsAnswered : Event File apply → Type 0
  IsAnswered (loses a) = ⊥
  IsAnswered fetch_fails = ⊥
  IsAnswered e = Unit
