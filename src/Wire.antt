-- ===== src/Wire.antt =====
-- What libvdeplug_wirefilter.c does to a packet on its way through the wire.
pub mod Bursts
pub mod Value
pub mod Handlers
pub mod Forward
pub mod Send
pub mod Plain
pub mod Duplicates
pub mod Noise
pub mod Message
mod Tests
