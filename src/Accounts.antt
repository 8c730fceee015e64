-- ===== src/Accounts.antt =====
-- firemex/auth.py and the users of firemex/store.py: roles, passwords, lockout and the administrators.
pub mod Text
pub mod Roles
pub mod Users
pub mod Sessions
pub mod Access
pub mod Login
pub mod Passwords
pub mod Redaction
pub mod Registration
