-- ===== src/App.antt =====
-- app/main.py and app/dependencies.py: the application, from its settings to its responses.
mod Defs
mod Serving
pub mod Sound
mod Opening
pub mod Lifespan
pub mod RequestIds
pub mod Documented
pub mod Statuses
pub mod OpenApi
pub mod Secrets
pub mod Undisclosed
pub mod Unrouted
pub mod Logged
pub use Defs.{App, Platform, Client, opened, closed, repository, issue_services, hook_services}
unfoldable pub use Defs.{
  create_app, open_store, startup, shutdown, get_github_client, get_event_store, healthz,
}
pub use Serving.{
  Endpoint, get_health, post_issue, get_issues, get_issue, patch_issue, post_comment, get_comments,
  post_webhook, get_events, Visit, visit_id, tagged,
}
unfoldable pub use Serving.{route, serve, serve_all}
