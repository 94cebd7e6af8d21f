-- ===== src/Auth/Menus.antt =====
-- The entries of the menus against the routes.
use pgmanager.Common.{◌≡◌, refl, Option, some, All, Text}
use pgmanager.Schemas.{Role, admin, dev, viewer, AuthUser}
use pgmanager.Auth.{
  Location, Page, databases_table, users, logs, profile, settings, backups, shows, app_routes,
  desktop_items, mobile_items,
}

-- An entry that leads to a page at once.
abbrev pub Leads : Option AuthUser → Location → Type 0
Leads user l = (p : Page) × (app_routes user l ≡ shows p)

abbrev pub user_of : Text → Role → Option AuthUser
user_of name role = some (record { username = name; role = role })

-- Every entry that a menu offers to a user, on a desktop or a mobile device, leads to a page and is not
-- redirected, whatever the role.
pub items-Leads :
    (name : Text) (role : Role)
    → All (Leads (user_of name role)) (desktop_items (user_of name role))
      × All (Leads (user_of name role)) (mobile_items (user_of name role))
unfolding app_routes desktop_items mobile_items
items-Leads name admin = (
  (
    (databases_table, refl),
    ((users, refl), ((logs, refl), ((settings, refl), ((backups, refl), ((profile, refl), tt))))),
  ),
  (
    (databases_table, refl),
    (
      (users, refl),
      (
        (logs, refl),
        ((backups, refl), ((settings, refl), ((backups, refl), ((profile, refl), tt)))),
      ),
    ),
  ),
)
items-Leads name dev = (
  ((databases_table, refl), ((backups, refl), ((profile, refl), tt))),
  ((databases_table, refl), ((backups, refl), ((profile, refl), tt))),
)
items-Leads name viewer = (
  ((databases_table, refl), ((profile, refl), tt)),
  ((databases_table, refl), ((profile, refl), tt)),
)
