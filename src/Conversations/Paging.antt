-- ===== src/Conversations/Paging.antt =====
-- `list` of apps/backend/src/conversations/conversations.service.ts, with its two paging arms
-- and its two ways to fetch names and tags.
pub mod Query
pub mod Cursor
pub mod Listing
pub mod RoundTrip
pub mod Arms
pub mod Order
mod Slices
pub mod Keyset
pub mod Walk
mod Pages
pub mod Sample
mod Tests
