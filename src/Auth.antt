-- ===== src/Auth.antt =====
-- lemur/auth: permissions and tokens.
pub mod Permissions
mod Segments
pub mod Tokens
