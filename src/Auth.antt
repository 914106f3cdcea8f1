-- ===== src/Auth.antt =====
-- src/modules/auth: logins, sessions, passwords and their reset.
pub mod Tables
pub mod Redis
pub mod Setup
pub mod Users
pub mod Sessions
pub mod Attempts
pub mod ResetTokens
pub mod Login
pub mod Passwords
pub mod Calls
pub mod Guards
