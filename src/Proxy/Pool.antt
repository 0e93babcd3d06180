-- ===== src/Proxy/Pool.antt =====
-- deploy/proxyAPI/proxy.py: the gateways' entries over time: allocation, the answers of the
-- gateways, the monitor, registration and its end.
pub mod Answer
pub mod Register
pub mod Allocate
pub mod Monitor
pub mod Stop
mod Tests
