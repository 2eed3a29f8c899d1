-- ===== src/Exchange.antt =====
-- Client and server together: what one end writes to its socket, read by the other end. The bytes of
-- one packet arrive here in one read; how they may be cut is the matter of Codec/Stream.
pub mod Reads
pub mod Request
pub mod Message
pub mod Push
