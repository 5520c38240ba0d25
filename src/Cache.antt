-- ===== src/Cache.antt =====
-- app/cache.py: `ResponseCache`, a bounded cache over Python's `OrderedDict`.
mod Defs
pub mod Order
pub mod Lru
pub mod Reads
pub mod Entries
pub mod Lines
pub use Defs.{ResponseCache, CachedList, CacheKey}
unfoldable pub use Defs.{
  find, del, set_item, move_to_end, evict, init, get, set, record_hit, record_miss, clear, size,
  stats,
}
