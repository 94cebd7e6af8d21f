-- ===== src/Users.antt =====
-- The users of the dashboard and of the databases: backend/ui/src/routes/Users.tsx and the dialogs
-- below components/dialogs that it opens.
pub mod Editor
pub mod CreateAuth
pub mod EditAuth
pub mod CreatePostgres
pub mod EditPostgres
pub mod Reset
pub mod Panel
pub mod ResetAuth
pub mod Table
pub mod Credentials
