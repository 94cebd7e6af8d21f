-- ===== src/Tests/Users.antt =====
-- Databases, users and deletions.
use pgmanager.Common.{
  pos, ◌≡◌, ◌↔◌, refl, true, false, none, some, List, [], ◌∷◌, Text, text, text_eq, All,
  if◌then◌else◌, arith,
}
use pgmanager.Schemas.{dev, write, Database, User, AuthUserListItem}
use pgmanager.Confirm
use pgmanager.Confirm.{Page, closed, ask, typed, confirm}
use pgmanager.Confirm.Typed.{steps-confirmed}
use pgmanager.Databases
use pgmanager.Databases.{bin, dialog}
use pgmanager.Databases.Deletion.{steps-IsOffered}
use pgmanager.Users.Credentials.Shown.{Shows, created-Shows}
use pgmanager.Users.Panel
use pgmanager.Users.Panel.{on_answer}
use pgmanager.Users.CreatePostgres
use pgmanager.Users.CreatePostgres.Sent.{IsComplete, click_create_iff}
use pgmanager.Users.Editor.{Row, mounted, pencil, steps}
use pgmanager.Users.EditPostgres
use pgmanager.Users.Table.{postgres_row}
use pgmanager.Users.Table.Kept.{saved_postgres_row, postgres_row-click_save}

-- The page of the users takes only the flag back when the server answers.
abbrev answered : Page Text → Page Text
answered = on_answer Text Unit

steps-confirmed_example :
    let s = Confirm.steps Text answered (ask (text "a") ∷ Confirm.cancel ∷ []) (closed Text) in
    ((Confirm.steps Text answered (ask (text "b") ∷ confirm ∷ []) s).sent ≡ s.sent)
    × ((Confirm.steps Text answered (ask (text "b") ∷ typed (text "DELETE") ∷ confirm ∷ []) s).sent
        ≡ (if text_eq (text "DELETE") (text "DELETE") then text "b" ∷ s.sent else s.sent))
unfolding Confirm.steps Confirm.step Confirm.handle_close Confirm.opened Confirm.asked closed
    on_answer
steps-confirmed_example =
    steps-confirmed answered (λ s h. h) (ask (text "a") ∷ Confirm.cancel ∷ []) (text "b")
      (text "DELETE") refl refl

abbrev shop : Database
shop = record { name = text "shop"; protected = false }

abbrev postgres : Database
postgres = record { name = text "postgres"; protected = true }

abbrev deletion : List Databases.Event
deletion = bin postgres ∷ bin shop ∷ dialog (typed (text "DELETE")) ∷ dialog confirm ∷ []

steps-IsOffered_example :
    All (λ name. name ≡ text "shop") (Databases.steps true deletion (closed Text)).sent
steps-IsOffered_example =
    steps-IsOffered true (λ name. name ≡ text "shop") deletion
      (λ a p. ground arith, (λ a p. refl, (tt, (tt, tt))))

abbrev new_user : CreatePostgres.Form
new_user = record {
  username = text " app ";
  access = write;
  selected_dbs = text "shop" ∷ [];
  allowed_ips = [];
  error = none;
}

abbrev new_vars : CreatePostgres.Vars
new_vars = record {
  username = text "app";
  databases = text "shop" ∷ [];
  access = write;
  allowed_ips = none;
}

click_create_iff_example :
    ((CreatePostgres.click_create false new_user).1 ≡ some new_vars)
    ↔ (IsComplete new_user × (new_vars ≡ CreatePostgres.Sent.told new_user))
click_create_iff_example = click_create_iff new_user new_vars

abbrev bob : Row AuthUserListItem
bob = record {
  ref = 1;
  user = record {
    id = pos 7;
    username = text "bob";
    role = dev;
    databases = some (text "shop" ∷ []);
    created_at = text "2024-01-01";
  };
}

abbrev reader : Row User
reader = record {
  ref = 2;
  user = record {
    username = text "bob";
    databases = text "shop" ∷ [];
    access = write;
    allowed_ips = text "0.0.0.0/0" ∷ [];
    created_at = text "now";
  };
}

postgres_row-click_save_example :
    saved_postgres_row
      (λ d. d)
      (steps EditPostgres.form (pencil reader ∷ []) (mounted EditPostgres.form))
      reader.user
    ≡ some (postgres_row (λ d. d) reader.user)
unfolding steps mounted
postgres_row-click_save_example = postgres_row-click_save (λ d. d) [] reader refl tt

abbrev given : CreatePostgres.Credentials
given = record {
  username = text "bob";
  password = text "s3cret";
  databases = text "shop" ∷ [];
  connection_string = text "postgres://bob";
}

-- A row is opened for editing while the credentials are shown.
abbrev clicks : List (Panel.Event Text CreatePostgres.Credentials)
clicks = Panel.click_edit (text "ann") ∷ Panel.close_edit ∷ []

created-Shows_example :
    Shows given
      (Panel.steps Text CreatePostgres.Credentials
        (Panel.created given ∷ clicks)
        (Panel.mounted Text CreatePostgres.Credentials)).show_creds
unfolding CreatePostgres.settled
created-Shows_example =
    created-Shows given given CreatePostgres.reset_form clicks
      (Panel.mounted Text CreatePostgres.Credentials) refl (tt, (tt, tt))
