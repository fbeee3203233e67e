-- ===== src/Analytics.antt =====
-- docsifer/analytics: usage counters, kept in memory and flushed to a store.
pub mod Counter
pub mod Store
pub mod Service
pub mod Periods
pub mod Upstash
