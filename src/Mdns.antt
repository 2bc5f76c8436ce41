-- ===== src/Mdns.antt =====
-- packages/dgram/src/mdns.ts: the mDNS codec of class Mdns. The children hold the domain names, the
-- resource records, the messages and the handler of datagrams, with their proofs below them.
pub mod Errors
pub mod Buffers
pub mod Names
pub mod Records
pub mod Messages
pub mod Handler
pub mod Tests
