-- ===== src/Login.antt =====
-- The admission of anonymous login requests, internal/backend/auth_login_admission.go.
pub mod Clients
pub mod Bound
pub mod Proxy
pub mod Spoof
