-- ===== src/Session/Protocol.antt =====
-- The broker and its client over one connection.
pub mod Row
pub mod Listing
pub mod Descriptors
pub mod Printed
