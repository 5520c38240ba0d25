-- ===== src/Github.antt =====
-- app/github_client.py: the client for one repository, and the translation of upstream failures.
mod Types
mod Defs
mod Calls
pub mod Mapping
pub mod Waiting
pub mod Token
pub mod Lines
pub use Types.{
  Floats, Truncated, whole, not_a_number, infinite, Reply, Outcome, replied, timeout, transport,
  failed, GitHubResult, Call, Repository, Upstream,
}
unfoldable pub use Defs.{
  decode, error_payload, is_rate_limited, read_seconds, retry_after_seconds, map_error,
  upstream_details, request,
}
unfoldable pub use Calls.{
  list_call, conditional, etag, link, not_modified, repo_path, client_headers, create_issue,
  list_issues, get_issue, update_issue, create_comment, list_comments,
}
