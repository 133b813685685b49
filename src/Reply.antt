-- ===== src/Reply.antt =====
-- How an answer of the language model becomes messages: src/utils/reply-format.ts, with the options
-- of src/persona/common-chat-behavior.ts and the length plans of src/utils/reply-length.ts.
pub mod Options
pub mod Pieces
pub mod Cleanup
pub mod Format
pub mod Numerals
pub mod Lengths
pub mod Plans
mod Tests
