-- ===== src/Conversations.antt =====
-- handlers/conversations_service.py, `ConversationService`: the chat-sync service over the tables.
pub mod Events
