-- ===== src/Net.antt =====
-- The wire format of src/net: cursors over bytes, frames, and values.
pub mod Writer
pub mod Reader
pub mod RoundTrip
pub mod Values
pub mod Wire
