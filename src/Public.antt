-- ===== src/Public.antt =====
-- The circular lists of fram/module/public.
pub mod RList
mod Tests
