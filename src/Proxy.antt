-- ===== src/Proxy.antt =====
-- deploy/proxyAPI/proxy.py: the proxy in front of the gateways, and its registry in Redis.
pub mod Entry
pub mod Redis
pub mod Access
pub mod Pairing
pub mod Pool
pub mod Peer
pub mod Status
mod Tests
