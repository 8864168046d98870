-- ===== src/Users.antt =====
-- The users and sessions of src/user_auth.c.
pub mod Card
pub mod State
pub mod Login
pub mod Laws
pub mod Known
pub mod Lockout
pub mod Access
pub mod Cookie
pub mod Reference
pub mod Boot
pub mod Table
pub mod Sessions
pub mod Tokens
pub mod OnFlash
pub mod Tests
