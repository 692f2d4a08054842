-- ===== src/Auth.antt =====
-- src/auth/idaas.ts: the client of the identity service.
pub mod Idaas
pub mod Tokens
mod Examples
