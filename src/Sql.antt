-- ===== src/Sql.antt =====
-- backend/ui/src/components/dialogs/EditColumnDialog.tsx: `quoteIdent`.
pub mod Quoting
use pgmanager.Common.{ℕ, Text, [], ◌∷◌, ◌++◌, ◌==◌, if◌then◌else◌}

-- `name.replace(/"/g, '""')`
unfoldable pub double_quotes : Text → Text
double_quotes [] = []
double_quotes (c ∷ s) =
    let rest = double_quotes s in if c == b'"' then b'"' ∷ b'"' ∷ rest else c ∷ rest

unfoldable pub quote_ident : Text → Text
unfolding double_quotes
quote_ident name = b'"' ∷ double_quotes name ++ b'"' ∷ []
