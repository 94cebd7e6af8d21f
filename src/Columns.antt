-- ===== src/Columns.antt =====
-- The columns of a table: components/dialogs/EditColumnDialog.tsx, components/dialogs/
-- AddColumnDialog.tsx and components/tabs/StructureTab.tsx of backend/ui/src.
pub mod Add
pub mod Edit
pub mod Structure
