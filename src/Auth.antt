-- ===== src/Auth.antt =====
-- auth/service.py and auth/routes.py: accounts, tokens, sessions and permissions.
pub mod Tokens
pub mod Accounts
pub mod Tickets
pub mod Routes
pub mod Replay
pub mod Grants
