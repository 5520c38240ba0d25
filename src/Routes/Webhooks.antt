-- ===== src/Routes/Webhooks.antt =====
-- app/routers/webhooks.py: `receive_webhook` and `list_events`.
mod Defs
pub mod Deliveries
pub mod Events
pub mod Supported
pub mod Lines
pub use Defs.{require_delivery, ack_response, event_row, Services, Delivery, Ack}
unfoldable pub use Defs.{
  event_record, event_records, load_body, check_delivery, receive_webhook, parse_limit, list_events,
}
