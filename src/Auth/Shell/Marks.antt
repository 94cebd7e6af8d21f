-- ===== src/Auth/Shell/Marks.antt =====
-- Which entry the menus mark.
use pgmanager.Common.{◌≡◌, ◌++◌, List, arith, Text, text, text_eq, All}
use pgmanager.Schemas.{Role, admin, dev, viewer}
use pgmanager.Auth.{Location, root, profile_at, desktop_items, mobile_items}
use pgmanager.Auth.Menus.{user_of}
use pgmanager.Auth.Shell.{link, selected_key, is_active}

-- The entry that is marked on the page of an entry: the profile has none of its own.
abbrev pub section : Location → Location
section profile_at = root
section l = l

-- On a page, the marked entries are those that lead to the page of another entry.
abbrev pub Marks : Text → Location → Location → Type 0
Marks path l i = is_active (selected_key path) i ≡ text_eq (link i) (link l)

-- The marks of the entries of a menu on the pages of its entries, and below `/databases/`.
abbrev pub AreMarked : List Location → Text → Type 0
AreMarked items rest =
    All (λ l. All (Marks (link l) (section l)) items) items
    × All (Marks (text "/databases/" ++ rest) root) items

-- On the page of any entry of a menu, exactly the entries that lead to that page are marked, on the
-- profile those that lead to the databases; these are also marked below `/databases/`. This holds for
-- every role, on a desktop and on a mobile device.
pub link-Marks :
    (name : Text) (role : Role) (rest : Text)
    → AreMarked (desktop_items (user_of name role)) rest
      × AreMarked (mobile_items (user_of name role)) rest
unfolding link selected_key is_active desktop_items mobile_items text text_eq
link-Marks name admin rest = ground arith
link-Marks name dev rest = ground arith
link-Marks name viewer rest = ground arith
