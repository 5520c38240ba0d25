-- ===== src/App/Logged.antt =====
-- What the application logs.
mod Defs
mod Agreeing
mod Identified
mod Secret
mod Unsigned
mod Process
mod Signatures
pub use Defs.{Trace, untraced, completed, request_lines, log, logs}
pub use Process.{process_log, process_log_hides_token}
pub use Identified.{log-Carries}
pub use Unsigned.{delivering, reason_not_logged}
pub use Signatures.{visits, sent, sent_again, secrets_undisclosed}
