-- ===== src/Gateway.antt =====
-- What runs beside a conference: the launcher of the containers (HTTPLauncher.py), the events of
-- baresip (src/event_handler.py, src/netstring.py), the watch over a conference (src/browsing.py), and the script that routes a call to a gateway
-- (deploy/kamailio/config/request_gw.py).
pub mod Names
pub mod Events
pub mod Netstring
pub mod Launcher
pub mod Browsing
mod Tests
