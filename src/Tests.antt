-- ===== src/Tests.antt =====
-- The theorems at concrete inputs.
mod Fixtures
mod Names
mod Columns
mod Tables
mod Rows
mod Pages
mod Session
mod Users
mod Settings
mod Certificates
mod Account
mod Answers
mod Requests
mod Selection
mod Grid
mod Types
