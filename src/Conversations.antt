-- ===== src/Conversations.antt =====
-- apps/backend/src/conversations/conversations.service.ts: the rows and the claim of a ticket.
pub mod Table
pub mod Assign
pub mod Paging
mod Tests
