-- ===== src/Conversation.antt =====
-- Conversations: src/services/conversation-context-repository.ts over the tables of
-- src/shared/sqlite.ts, and the router of src/services/conversation-context-router.ts in front of it.
pub mod Tables
pub mod Places
pub mod Saving
pub mod History
pub mod Answers
pub mod Words
pub mod Policy
pub mod Router
mod Tests
