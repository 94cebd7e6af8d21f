-- ===== src/Tests/Settings.antt =====
-- The settings, the backups of databases and the logs.
use pgmanager.Common.{
  List, ltb, length, ◌&&◌, not, ℕ, ◌≡◌, refl, true, false, none, some, [], ◌∷◌, ◌++◌, text, text_eq,
}
use pgmanager.Settings.Access
use pgmanager.Settings.Access.{
  PgbouncerDatabase, Toggle, toggled, Pending, State, Reach, here, later, Fetch, idle, Step, click,
  done, succeeded, ask, answer, receive,
}
use pgmanager.Settings.Access.Rows.{shown_row, access_rows, clicked, flip_at, clicked-flip_at}
use pgmanager.Tests.Fixtures.{ne}
use pgmanager.Settings.Access.Settled.{opened-Reach-cache}
use pgmanager.Backups
use pgmanager.Backups.{Panel, click_backup, answers, toggles}
use pgmanager.Backups.Downloads.{answers_of, before_error, has_error, files, steps-files}

abbrev shop : PgbouncerDatabase
shop = record { database_name = text "shop"; allowed = true; created_at = none; updated_at = none }

abbrev first : State
first = Access.opened (shop ∷ [])

-- The list is fetched and received.
abbrev fetched : State
fetched = record first { query = record first.query { fetch = Fetch.read first.server } }

abbrev received : State
received = record first {
  query = record { cache = some (shop ∷ []); fetch = idle; is_error = false };
}

opened-Reach-cache_example : received.query.cache ≡ some received.server
unfolding Access.opened
opened-Reach-cache_example =
    opened-Reach-cache (shop ∷ []) received
      (later first fetched received (later first first fetched (here first) (answer first refl))
        (receive fetched (shop ∷ []) refl))
      refl refl refl

abbrev panel : Panel ℕ
panel = record {
  selected = text "shop" ∷ text "crm" ∷ [];
  waiting = [];
  downloading = false;
  downloads = [];
}

-- A database is taken out of the selection while its backup is under way.
abbrev backup_events : List (Backups.Event ℕ)
backup_events =
    answers (some 1) (text "now") ∷ toggles (text "crm") ∷ answers none (text "later") ∷ []

steps-files_example :
    ((Backups.steps backup_events (click_backup panel)).downloads
      ≡ panel.downloads ++ files panel.selected (before_error (answers_of backup_events)))
    × ((Backups.steps backup_events (click_backup panel)).downloading ≡ (
        ltb (length (answers_of backup_events)) (length panel.selected)
        && not (has_error (answers_of backup_events))))
steps-files_example = steps-files panel backup_events refl refl

abbrev crm : PgbouncerDatabase
crm = record { database_name = text "crm"; allowed = false; created_at = none; updated_at = none }

clicked-flip_at_example :
    clicked (shown_row false crm) (shop ∷ crm ∷ []) ≡ some (flip_at 1 (shop ∷ crm ∷ []))
unfolding access_rows text_eq text
clicked-flip_at_example =
    clicked-flip_at (shop ∷ crm ∷ []) 1 (shown_row false crm)
      ((ne (text "crm") (text "shop") refl, tt), (tt, tt)) refl
