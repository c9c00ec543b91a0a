-- ===== src/Search.antt =====
-- apps/backend/src/search/search.service.ts: the search of messages, and the widget's
-- aggregate with its cache.
pub mod Messages
mod Like
mod Tests
pub mod StatsCache
pub mod Stats
