-- ===== src/Pieces.antt =====
-- What a transfer has and asks for: pieces in progress, the choice of blocks, the received blocks.
pub mod Downloading
pub mod Pending
pub mod Receiving
pub mod Picker
