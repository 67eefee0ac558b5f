-- ===== src/Network.antt =====
-- What stands between the network and the handlers: the client's address, the throttle of logins and
-- the policy on outgoing notification URLs.
pub mod RealIp
pub mod RateLimit
pub mod Apprise
mod Examples
