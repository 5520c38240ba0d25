-- ===== src/Routes/Issues.antt =====
-- app/routers/issues.py: the issue and comment routes.
mod Defs
mod Listing
pub mod Caching
pub mod Interleaved
pub mod Provenance
pub mod Answers
pub mod Token
pub mod Lines
pub mod Unseen
pub mod Pages
pub use Defs.{
  Services, list_of-only_crashes, comments_of-only_crashes, comments_path, issues_path, header_set,
}
unfoldable pub use Defs.{
  issue_or_404, comments_of, create_issue, get_issue, update_issue, create_comment, list_comments,
  parse_number, parse_page, parse_per_page, list_of, paged,
}
pub use Listing.{
  issues_of-only_crashes, page_response-only_crashes, entry_of-only_crashes, ListQuery, Cache,
  cache_key, nonempty, is_text,
}
unfoldable pub use Listing.{
  missed, current, list_params, wanted_etag, look_up, answered, entry_of, issues_of, page_response,
  list_issues,
}
