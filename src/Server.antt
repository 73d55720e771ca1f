-- ===== src/Server.antt =====
-- The parts of src/server that judge a request before a handler sees it, and what the server counts.
pub mod Request
pub mod Signing
pub mod Csrf
pub mod Ids
pub mod Captcha
pub mod Address
pub mod Proxies
pub mod BaseUrl
pub mod Learner
pub mod Cors
pub mod Stats
pub mod Sealing
pub mod Disclosure
pub mod Report
