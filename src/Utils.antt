-- ===== src/Utils.antt =====
-- internal/utils: the encodings that the wire format rests on.
pub mod Ufloat16
pub mod Buffer
pub mod ByteOrder
mod Examples
