-- ===== src/Frontend.antt =====
-- The list of conversations in the browser, and the reads and writes of the server that renders it.
pub mod ConversationList
pub mod Arms
pub mod Sources
pub mod Api
pub mod PageShape
mod Loaded
mod Tests
