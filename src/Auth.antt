-- ===== src/Auth.antt =====
-- The accounts: users, sessions, one-time codes and the sign-in (src/auth, src/users, src/session,
-- src/otp).
pub mod Data
pub mod Users
pub mod Sessions
pub mod Codes
pub mod Login
pub mod Profile
pub mod OneCode
pub mod Guesses
pub mod Attempts
pub mod Sending
pub mod Refresh
pub mod Passwords
pub mod SignIn
pub mod Fixtures
mod Tests
