-- ===== src/Auth.antt =====
-- The accounts: src/modules/auth (users.service.ts, otp.service.ts, auth.service.ts) and what they
-- store.
pub mod Model
pub mod Patch
pub mod Users
pub mod OtpStore
pub mod Otp
pub mod Session
pub mod Password
