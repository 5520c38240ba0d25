-- ===== src/Pagination.antt =====
-- app/pagination.py: reading `Link` headers and writing them for this service.
mod Defs
mod Rewriting
pub mod Segments
pub mod RoundTrip
pub mod Targets
pub mod Forwarded
pub use Defs.{has_rel, Rel, quoted, bare}
unfoldable pub use Defs.{
  split_from, split_segments, match_segment, match_rel, search_rel, add_link, parse_link_header,
  add_links,
}
pub use Rewriting.{Urls, rewrite_link_header-only_crashes, max_per_page, default_per_page}
unfoldable pub use Rewriting.{
  forwarded, suffix, render_link, render_all, join, retarget, rewrite_link_header,
}
