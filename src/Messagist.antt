-- ===== src/Messagist.antt =====
-- The crate messagist: typed messages over byte streams and text streams.
pub mod Bin
pub mod Text
pub mod Pipes
