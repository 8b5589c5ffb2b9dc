-- ===== src/Auth.antt =====
-- main/auth.c and main/auth.h: sessions, the login counters kept per address, and the tokens
-- that a request carries.
pub mod Token
pub mod Cookie
pub mod Hosts
pub mod Sessions
pub mod Login
pub mod Request
pub mod Tests
