-- ===== src/Auth/Access.antt =====
-- Who sees which page, through all redirections.
use pgmanager.Common.{
  run_keep_when, All, if◌then◌else◌, ◌≡◌, refl, Bool, true, false, ◌&&◌, is_some, Option, none,
  some, List, Text, ◌⊎◌, inl, inr, arith,
}
use pgmanager.Schemas.{Role, admin, dev, viewer, AuthUser}
use pgmanager.Auth.{
  Session, start, mount, login, logout, Event, logs_in, logs_out, check, checked, step, steps,
  Location, root, users_at, logs_at, settings_at, backups_at, setup_at, database_at, Page, users,
  logs, settings, backups, setup_page, login_page, View, shows, redirects, spinner, nothing,
  visitor_routes, app_routes, view, follow,
}

-- Who may see a page.
abbrev pub MaySee : Option AuthUser → Page → Type 0
MaySee none setup_page = Unit
MaySee none login_page = Unit
MaySee none _ = ⊥
MaySee (some u) users = u.role ≡ admin
MaySee (some u) logs = u.role ≡ admin
MaySee (some u) settings = u.role ≡ admin
MaySee (some u) backups = (u.role ≡ admin) ⊎ (u.role ≡ dev)
MaySee (some u) setup_page = ⊥
MaySee (some u) login_page = ⊥
MaySee (some u) _ = Unit

-- A view that the user may see and that is no redirection.
abbrev pub IsAllowed : Option AuthUser → View → Type 0
IsAllowed user (shows p) = MaySee user p
IsAllowed user (redirects l) = ⊥
IsAllowed user spinner = ⊥
IsAllowed none nothing = ⊥
IsAllowed (some u) nothing = Unit

visitor :
    (needs : Bool) (l : Location)
    → IsAllowed none (follow 1 (record { user = none; loading = false; needs_setup = needs }) l)
unfolding follow view visitor_routes
visitor true root = tt
visitor true users_at = tt
visitor true _ = tt
visitor false setup_at = tt
visitor false _ = tt

member :
    (role : Role) (name : Text) (needs : Bool) (l : Location)
    → IsAllowed (some (record { username = name; role = role })) (
        follow 1
          (record {
            user = some (record { username = name; role = role });
            loading = false;
            needs_setup = needs;
          })
          l)
unfolding follow view app_routes
member admin name needs users_at = refl
member admin name needs logs_at = refl
member admin name needs settings_at = refl
member admin name needs backups_at = inl refl
member dev name needs backups_at = inr refl
member admin name needs _ = tt
member dev name needs _ = tt
member viewer name needs (database_at d) = tt
member viewer name needs _ = tt

by_user :
    (user : Option AuthUser) (loading needs : Bool) (l : Location)
    → loading ≡ false
    → IsAllowed user (follow 1 (record { user = user; loading = loading; needs_setup = needs }) l)
by_user user true needs l h = absurd (ground (arith, h))
by_user none false needs l h = visitor needs l
by_user (some u) false needs l h = member u.role u.username needs l

-- Once the session is loaded, who is logged in sees only pages that the role may see, also
-- through a redirection: logs, users and settings an admin, backups an admin or a dev; and a
-- visitor sees only the setup or the login. One redirection always suffices: the view reached is
-- a page or, for who is
-- logged in, an empty layout.
pub follow-IsAllowed :
    (s : Session) (l : Location) → s.loading ≡ false → IsAllowed s.user (follow 1 s l)
follow-IsAllowed s l h = by_user s.user s.loading s.needs_setup l h

-- The loading has ended and nobody is logged in.
IsVisitor : Session → Type 0
IsVisitor s = (s.loading ≡ false) × (s.user ≡ none)

-- A login that brings no user, a logout, or an answer to the check.
abbrev pub IsVain : Event → Type 0
IsVain (logs_in ok me) = (ok && is_some me) ≡ false
IsVain (logs_out ok) = Unit
IsVain (check answer) = Unit

step-IsVisitor : (e : Event) (s : Session) → IsVain e → IsVisitor s → IsVisitor (step e s)
unfolding IsVisitor step login logout checked
step-IsVisitor (logs_in false me) s v h = h
step-IsVisitor (logs_in true none) s v h = h
step-IsVisitor (logs_in true (some me)) s v h = absurd (ground (arith, v))
step-IsVisitor (logs_out true) s v h = (h.0, refl)
step-IsVisitor (logs_out false) s v h = h
step-IsVisitor (check (some needed)) s v h = h
step-IsVisitor (check none) s v h = h

visitor_page :
    (needs : Bool) (l : Location)
    → follow 1 (record { user = none; loading = false; needs_setup = needs }) l
      ≡ shows (if needs then setup_page else login_page)
unfolding follow view visitor_routes
visitor_page true setup_at = refl
visitor_page true _ = refl
visitor_page false setup_at = refl
visitor_page false _ = refl

-- If `fetchMe` fails, then after any logins that bring no user and any logouts, and once the check
-- for the setup has been answered, a visitor of any page is led to the setup if it is needed, and
-- otherwise to the login.
pub steps-visitor_page :
    (es : List Event) (needed : Bool) (l : Location)
    → All IsVain es
    → follow 1 (step (check (some needed)) (steps es (mount none start))) l
      ≡ shows (if needed then setup_page else login_page)
unfolding IsVisitor step checked steps mount
steps-visitor_page es needed l vain =
    let s : Session = steps es (mount none start) in
    let h : IsVisitor s =
      run_keep_when step IsVisitor IsVain step-IsVisitor es (mount none start) vain (refl, refl) in
    by_fields s.user s.loading h.1 h.0
  where
    by_fields :
        (user : Option AuthUser) (loading : Bool)
        → user ≡ none
        → loading ≡ false
        → follow 1 (record { user = user; loading = loading; needs_setup = needed }) l
          ≡ shows (if needed then setup_page else login_page)
    by_fields none false e i = visitor_page needed l
    by_fields (some u) loading e i = absurd (ground (arith, e))
    by_fields none true e i = absurd (ground (arith, i))
