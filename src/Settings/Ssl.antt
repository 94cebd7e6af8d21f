-- ===== src/Settings/Ssl.antt =====
-- backend/ui/src/routes/Settings.tsx, "SSL / TLS": the two forms, and what they send. `File` are the
-- files that the browser hands out.
pub mod Forms
pub mod Actions
use pgmanager.Common.{
  run, Bool, true, false, not, ◌&&◌, Integer, pos, Option, none, some, List, [], ◌∷◌, ◌++◌, Text,
  text, is_some, if◌then◌else◌,
}
use pgmanager.Api.{Request, Fields}
use pgmanager.Api.Server.{generate_ssl_certs, upload_ssl_certs}
use pgmanager.Settings.{int_or}

module _ (File : Type 0) where
  pub record Card : Type 0 where
    pub show_generate_form : Bool
    pub show_upload_form : Bool
    pub generate_cn : Text
    pub generate_days : Integer
    pub upload_cert : Option File
    pub upload_key : Option File
    pub upload_ca : Option File

  unfoldable pub opened : Card
  opened = record {
    show_generate_form = false;
    show_upload_form = false;
    generate_cn = text "pgmanager-server";
    generate_days = pos 1825;
    upload_cert = none;
    upload_key = none;
    upload_ca = none;
  }

  -- The file inputs are there while the form is, and lose their files with it.
  no_files : Card → Card
  no_files s = record s { upload_cert = none; upload_key = none; upload_ca = none }

  ca_field : Option File → List (Text × File)
  ca_field none = []
  ca_field (some f) = (text "ca_cert", f) ∷ []

  form_data : Option File → Option File → Option File → Option (List (Text × File))
  form_data (some cert) (some key) ca =
      some ((text "server_cert", cert) ∷ (text "server_key", key) ∷ ca_field ca)
  form_data cert key ca = none

  -- The form data that the mutation is called with, if it is.
  unfoldable pub handle_upload : Card → Option (List (Text × File))
  unfolding form_data ca_field
  handle_upload s = form_data s.upload_cert s.upload_key s.upload_ca

  -- The names and the days that "Generate & Enable" sends.
  unfoldable pub generate_request : Card → Request Fields
  generate_request s = generate_ssl_certs (some s.generate_cn) (some s.generate_days)

  unfoldable pub upload_request : List (Text × File) → Request (List (Text × File))
  upload_request data_sent = upload_ssl_certs data_sent

  pub data Event : Type 0 where
    click_generate click_upload cancel_generate cancel_upload generated uploaded : Event
    set_cn set_days : Text → Event
    set_cert set_key set_ca : Option File → Event

  unfoldable pub step : Event → Card → Card
  unfolding no_files
  step click_generate s =
      no_files
        (record s { show_generate_form = not s.show_generate_form; show_upload_form = false })
  step click_upload s =
      no_files (record s { show_upload_form = not s.show_upload_form; show_generate_form = false })
  step cancel_generate s = record s { show_generate_form = false }
  step generated s = record s { show_generate_form = false }
  step cancel_upload s = no_files (record s { show_upload_form = false })
  step uploaded s = no_files (record s { show_upload_form = false })
  step (set_cn t) s = record s { generate_cn = t }
  step (set_days t) s = record s { generate_days = int_or t 1825 }
  step (set_cert f) s = if s.show_upload_form then record s { upload_cert = f } else s
  step (set_key f) s = if s.show_upload_form then record s { upload_key = f } else s
  step (set_ca f) s = if s.show_upload_form then record s { upload_ca = f } else s

  unfoldable pub steps : List Event → Card → Card
  unfolding step
  steps es s = run step es s

-- The status of the certificates, and which buttons the card has.
pub record Status : Type 0 where
  pub enabled : Bool
  pub has_certs : Bool

pub data Button : Type 0 where
  generate upload download_ca disable enable remove : Button

unfoldable pub buttons : Option Status → List Button
buttons none = generate ∷ upload ∷ []
buttons (some st) =
    (if not st.has_certs then generate ∷ upload ∷ [] else [])
    ++ (if st.has_certs
        then download_ca ∷ (if st.enabled then disable ∷ [] else enable ∷ []) ++ remove ∷ []
        else [])
