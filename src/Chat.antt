-- ===== src/Chat.antt =====
-- handlers/chat_common.py and handlers/chat.py: a chat request, from its body to its reply. A turn is
-- taken as one step; the interleavings of turns are those of the limiter and of the quota. The
-- writes to the audit log are left out.
pub mod Requests
pub mod Turns
