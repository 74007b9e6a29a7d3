-- ===== src/Storage.antt =====
-- The storage devices, src/driver/storage: their queue of requests and the transfers that feed it.
pub mod Requests
pub mod Transfer
