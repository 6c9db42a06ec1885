-- ===== src/Forwarder.antt =====
-- ais_server/forwarder.py: the fan-out of the sentences to the endpoints.
pub mod Worker
pub mod Tcp
pub mod Udp
pub mod Http
pub mod Probe
pub mod Manager
mod Tests
