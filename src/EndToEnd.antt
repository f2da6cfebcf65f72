-- ===== src/EndToEnd.antt =====
-- A generated stub and a generated base of the same service, on the two ends of a connection: what
-- the one writes the other reads.
pub mod Call
pub mod Event
