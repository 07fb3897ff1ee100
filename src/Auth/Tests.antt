-- ===== src/Auth/Tests.antt =====
-- The tables of two accounts, and the examples on them.
mod Accounts
mod Admins
mod Logins
mod Registration
mod Sessions
mod Tokens
