-- ===== src/Passthru.antt =====
-- bdev-passthru-compress/passthru/vbdev_passthru.c: a bdev that passes its requests on to a base bdev, and
-- compresses what is written to it and decompresses what is read.
pub mod Buffers
pub mod Padding
pub mod Trim
pub mod Request
pub mod RoundTrip
pub mod Life
pub mod Retry
pub mod Registry
pub mod Registered
pub mod Reached
mod Tests
