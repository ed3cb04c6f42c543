-- ===== src/Memory/Laws.antt =====
-- What reads give after writes, of one word and of several.
mod Frame
mod Reads
pub use Frame.*
pub use Reads.*
