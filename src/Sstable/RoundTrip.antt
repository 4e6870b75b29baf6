-- ===== src/Sstable/RoundTrip.antt =====
-- A written segment answers lookups as its entries do.
pub mod Skip
pub mod Stored
pub mod Written
pub mod Rescanned
pub mod Tests
