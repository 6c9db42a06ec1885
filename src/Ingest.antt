-- ===== src/Ingest.antt =====
-- ais_server/ingest.py: the TCP ingest. The registry of nodes, the tag-block in front of a sentence,
-- the handler of a connection and the listener.
pub mod Registry
pub mod TagBlock
pub mod Framing
pub mod Handler
pub mod Listener
mod Tests
