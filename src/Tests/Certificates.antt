-- ===== src/Tests/Certificates.antt =====
-- The mutations on the certificates.
use pgmanager.Common.{ℕ, true, false, List, [], ◌∷◌}
use pgmanager.Settings.Ssl
use pgmanager.Settings.Ssl.{Status, click_generate}
use pgmanager.Settings.Ssl.Actions
use pgmanager.Settings.Ssl.Actions.{Action, generate_certs, disable_certs, delete_certs}

-- A server on which certificates are enabled as soon as they are there.
abbrev ssl_server : Action → Status → Status
ssl_server delete_certs st = record { enabled = false; has_certs = false }
ssl_server disable_certs st = record st { enabled = false }
ssl_server a st = record { enabled = true; has_certs = true }

abbrev no_certs : Status
no_certs = record { enabled = false; has_certs = false }

-- Certificates are generated; the status that is fetched meanwhile is out of date, and is fetched
-- again.
abbrev events : List (Actions.Event ℕ ssl_server)
events =
    Actions.input click_generate
    ∷ Actions.clicks generate_certs
    ∷ Actions.answers
    ∷ Actions.performs generate_certs
    ∷ Actions.receives
    ∷ Actions.succeeds generate_certs
    ∷ Actions.answers
    ∷ Actions.receives
    ∷ []

abbrev page : Actions.Page ℕ
page = Actions.steps ℕ ssl_server events (Actions.opened ℕ no_certs)
