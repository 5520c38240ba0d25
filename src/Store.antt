-- ===== src/Store.antt =====
-- app/store.py: the store of processed deliveries. SQLite is a parameter, as the statements of the
-- file see it.
mod Sql
mod Defs
pub mod Idempotent
pub mod Redelivery
pub mod Recent
pub mod Newest
pub mod Payloads
pub mod Interleaved
pub mod Claims
pub mod Durable
pub mod Clock
pub mod Rows
pub mod Timeline
pub use Sql.{Event, Sqlite, IsSqlite, same_key, has_delivery, limited, HoldsPayload, mentions}
unfoldable pub use Sql.{text_leb, insert_desc, order_by}
pub use Defs.{EventStore, StoredEvent, Codec, Loaded, value, malformed, undecodable}
unfoldable pub use Defs.{
  connect, close, connection, event_of, record_event, to_stored, recent, count, payload_for,
}
