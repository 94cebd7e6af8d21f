-- ===== src/Auth/Shell.antt =====
-- backend/ui/src/routes/AppLayout.tsx, components/layout/DesktopSidebar.tsx and MobileSidebar.tsx: the
-- entry that the menus mark, the menu of a mobile device, and the collapsed menu of a desktop.
pub mod Opened
pub mod Marks
use pgmanager.Common.{
  run, not, Bool, true, false, ◌&&◌, Option, List, [], ◌∷◌, Text, text, text_eq, any, if◌then◌else◌,
}
use pgmanager.Schemas.{AuthUser}
use pgmanager.Auth.{
  Location, root, users_at, logs_at, profile_at, settings_at, backups_at, mobile_items,
}

-- The strings of `selectedKey`.
pub data Key : Type 0 where
  databases users logs settings backups backup : Key

unfoldable pub selected_key : Text → Key
selected_key pathname =
    if text_eq pathname (text "/users")
    then users
    else if text_eq pathname (text "/logs")
    then logs
    else if text_eq pathname (text "/settings")
    then settings
    else if text_eq pathname (text "/backups")
    then backups
    else if text_eq pathname (text "/backup")
    then backup
    else databases

-- The `to` of an entry of a menu.
unfoldable pub link : Location → Text
link users_at = text "/users"
link logs_at = text "/logs"
link settings_at = text "/settings"
link backups_at = text "/backups"
link profile_at = text "/profile"
link _ = text "/"

-- Whether an entry is marked: the one of the profile never is.
unfoldable pub is_active : Key → Location → Bool
is_active databases root = true
is_active users users_at = true
is_active logs logs_at = true
is_active settings settings_at = true
is_active backups backups_at = true
is_active _ _ = false

pub record Shell : Type 0 where
  pub pathname : Text
  pub is_mobile_open : Bool
  pub is_collapsed : Bool

-- The effect on `location.pathname` closes the menu of a mobile device when the path changes.
unfoldable pub visit : Text → Shell → Shell
visit path s = record s {
  pathname = path;
  is_mobile_open = if text_eq path s.pathname then s.is_mobile_open else false;
}

-- The entries of the mobile menu with `onClick={onClose}`: all but the profile.
unfoldable pub closes_menu : Location → Bool
closes_menu profile_at = false
closes_menu _ = true

-- A click on an entry of the mobile menu.
unfoldable pub click_link : Location → Shell → Shell
unfolding visit link closes_menu
click_link l s =
    visit (link l) (record s { is_mobile_open = if closes_menu l then false else s.is_mobile_open })

-- `visits` is every other way to another page.
pub data Event : Type 0 where
  opens closes collapses : Event
  clicks : Location → Event
  visits : Text → Event

-- The mobile menu can be used while it is open, and has the entries of the user.
unfoldable pub step : Option AuthUser → Event → Shell → Shell
unfolding visit click_link mobile_items link
step user opens s = record s { is_mobile_open = true }
step user closes s = record s { is_mobile_open = false }
step user collapses s = record s { is_collapsed = not s.is_collapsed }
step user (clicks l) s =
    if s.is_mobile_open && any (λ i. text_eq (link i) (link l)) (mobile_items user)
    then click_link l s
    else s
step user (visits path) s = visit path s

unfoldable pub steps : Option AuthUser → List Event → Shell → Shell
unfolding step
steps user es s = run (step user) es s
