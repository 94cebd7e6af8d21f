-- ===== src/Auth.antt =====
-- backend/ui/src/contexts/AuthContext.tsx, the routes of routes/AuthenticatedLayout.tsx and
-- routes/AppLayout.tsx, and the menus of components/layout/DesktopSidebar.tsx and MobileSidebar.tsx.
-- A request that fails is `none`; matching a path with a pattern is the router's, so a location is the
-- pattern that the router finds.
pub mod Access
pub mod Menus
pub mod Shell
use pgmanager.Common.{
  run, ℕ, zero, suc, Bool, true, false, ◌||◌, Option, none, some, List, [], ◌∷◌, ◌++◌, Text,
  if◌then◌else◌,
}
use pgmanager.Schemas.{Role, admin, dev, viewer, AuthUser}

pub record Session : Type 0 where
  pub user : Option AuthUser
  pub loading : Bool
  pub needs_setup : Bool

abbrev pub start : Session
start = record { user = none; loading = true; needs_setup = false }

-- The effect on mount: what `fetchMe` answers. If it fails, `fetchSetupCheck` is asked, and the
-- loading ends before it answers.
unfoldable pub mount : Option AuthUser → Session → Session
mount (some me) s = record s { user = some me; loading = false }
mount none s = record s { loading = false }

-- What `fetchSetupCheck` answers.
unfoldable pub checked : Option Bool → Session → Session
checked (some needed) s = record s { needs_setup = needed }
checked none s = s

-- `login`: whether the server accepts the password, and what `fetchMe` answers.
unfoldable pub login : Bool → Option AuthUser → Session → Session
login false me s = s
login true none s = s
login true (some me) s = record s { user = some me; needs_setup = false }

-- `logout`: whether the server answers.
unfoldable pub logout : Bool → Session → Session
logout true s = record s { user = none }
logout false s = s

pub data Event : Type 0 where
  logs_in : Bool → Option AuthUser → Event
  logs_out : Bool → Event
  check : Option Bool → Event

unfoldable pub step : Event → Session → Session
unfolding login logout checked
step (logs_in ok me) s = login ok me s
step (logs_out ok) s = logout ok s
step (check answer) s = checked answer s

unfoldable pub steps : List Event → Session → Session
unfolding step
steps es s = run step es s

abbrev pub is_admin : Option AuthUser → Bool
is_admin none = false
is_admin (some u) = elim u.role [ admin ↦ true | dev ↦ false | viewer ↦ false ]

abbrev pub is_dev : Option AuthUser → Bool
is_dev none = false
is_dev (some u) = elim u.role [ admin ↦ false | dev ↦ true | viewer ↦ false ]

-- The patterns of the routes; `backup` is a path that only the marking of the menu knows, and
-- `elsewhere` is every path that no pattern matches.
pub data Location : Type 0 where
  root users_at logs_at profile_at settings_at backups_at setup_at login_at backup elsewhere :
      Location
  database_at : Text → Location
  table_at : Text → Text → Location

pub data Page : Type 0 where
  databases_table users logs profile settings backups setup_page login_page : Page
  database_detail : Text → Page
  table_detail : Text → Text → Page

-- What is rendered: a page, a redirection, the sign of loading, or nothing within the layout.
pub data View : Type 0 where
  shows : Page → View
  redirects : Location → View
  spinner nothing : View

-- The routes of a visitor who is not logged in.
unfoldable pub visitor_routes : Bool → Location → View
visitor_routes needs_setup setup_at = if needs_setup then shows setup_page else redirects login_at
visitor_routes needs_setup _ = if needs_setup then redirects setup_at else shows login_page

-- The routes of `AppLayout`.
unfoldable pub app_routes : Option AuthUser → Location → View
app_routes user root = shows databases_table
app_routes user (database_at name) = shows (database_detail name)
app_routes user (table_at name table) = shows (table_detail name table)
app_routes user users_at = if is_admin user then shows users else redirects root
app_routes user logs_at = if is_admin user then shows logs else redirects root
app_routes user profile_at = shows profile
app_routes user settings_at = if is_admin user then shows settings else redirects root
app_routes user backups_at = if is_admin user || is_dev user then shows backups else redirects root
app_routes user _ = nothing

-- `AuthenticatedLayout`
unfoldable pub view : Session → Location → View
unfolding visitor_routes app_routes
view s l =
    if s.loading
    then spinner
    else elim s.user [ none ↦ visitor_routes s.needs_setup l | some u ↦ app_routes (some u) l ]

-- A redirection is followed, at most `fuel` of them.
unfoldable pub follow : ℕ → Session → Location → View
unfolding view
follow zero s l = view s l
follow (suc fuel) s l = elim (view s l) [
  | redirects l' ↦ follow fuel s l'
  | shows p ↦ shows p
  | spinner ↦ spinner
  | nothing ↦ nothing
]

-- An entry of a menu: where it leads.
unfoldable pub desktop_items : Option AuthUser → List Location
desktop_items user =
    root ∷ (if is_admin user then users_at ∷ logs_at ∷ settings_at ∷ [] else [])
    ++ ((if is_admin user || is_dev user then backups_at ∷ [] else []) ++ profile_at ∷ [])

unfoldable pub mobile_items : Option AuthUser → List Location
mobile_items user =
    root ∷ (if is_admin user then users_at ∷ logs_at ∷ backups_at ∷ settings_at ∷ [] else [])
    ++ ((if is_admin user || is_dev user then backups_at ∷ [] else []) ++ profile_at ∷ [])
