-- ===== src/Tests.antt =====
-- Runs of the definitions on a concrete provider, and the theorems at concrete inputs.
pub mod Fixture
pub mod Runs
pub mod Tokens
pub mod Caches
pub mod Threading
pub mod Logins
pub mod Fetching
pub mod Urls
pub mod Calling
pub mod Genuine
pub mod Waiting
pub mod Ordering
pub mod Issuing
pub mod LoggingIn
pub mod Crowd
pub mod Live
pub mod Opening
