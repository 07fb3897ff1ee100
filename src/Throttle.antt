-- ===== src/Throttle.antt =====
-- api/throttling.py, api/throttling_api_keys.py and api/throttling_mfa.py
pub mod Window
pub mod ApiKey
pub mod Org
pub mod Mfa
mod Tests
