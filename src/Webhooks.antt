-- ===== src/Webhooks.antt =====
-- app/webhooks.py: signature verification and the summary of a payload. The HMAC digest is a
-- parameter.
mod Defs
pub mod Signature
pub use Defs.{WebhookSummary, Hmac, absent, mismatch, signature_message}
unfoldable pub use Defs.{
  utf8, is_ascii, compute_signature, compare_digest, verify_header, verify_signature,
  validate_event, is_supported, needs_action, summarize, as_log_fields,
}
