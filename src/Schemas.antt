-- ===== src/Schemas.antt =====
-- app/schemas.py: the request models with their validators, the response models, and the
-- projections of GitHub payloads. A date stands as its ISO text.
mod Requests
mod Projections
pub mod Validation
pub mod Patches
pub use Requests.{
  IssueState, opened, closed, IssueStateFilter, only, all, state_value, filter_value, IssueCreate,
  IssuePatch, CommentCreate, optional, required, labels_field, dump_field, any_eq, at_most,
  some_field, ◌>>=◌,
}
unfoldable pub use Requests.{
  clean_text, cleaned, clean_labels, keys_within, texts, parse_state, parse_create, dump_create,
  parse_patch, to_github_payload, parse_comment,
}
pub use Projections.{
  Pydantic, Issue, Comment, is_pull_request-only_crashes, to_comment-only_crashes,
  to_issue-only_crashes,
}
unfoldable pub use Projections.{
  is_pull_request, label_name, label_names, login, to_issue, to_comment,
}
