-- ===== src/Routing.antt =====
-- core/routing: node scoring, node selection, the route selector and the retry delays.
pub mod Backoff
pub mod Score
pub mod Select
pub mod Selector
