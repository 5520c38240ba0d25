-- ===== src/Replay.antt =====
-- scripts/replay_webhook.py: one signed delivery, sent several times.
mod Defs
pub mod Service
pub mod Accepted
pub mod Posted
pub mod Passes
pub mod Printed
pub use Defs.{EventName, issues, issue_comment, ping, Args, Exit, status, message, Client}
unfoldable pub use Defs.{
  load_secret, event_text, build_payload, delivery_request, signed_headers, chosen_delivery, rounds,
  post_times, matching, sign, secret_in, strip_quotes, verdict, replay, main, splitlines, partition,
}
