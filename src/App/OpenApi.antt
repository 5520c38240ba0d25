-- ===== src/App/OpenApi.antt =====
-- `_schema_without_auto_422`: the description of the API, without the responses that FastAPI adds.
mod Defs
pub mod Stripped
unfoldable pub use Defs.{
  remove_key, replace, without_422, clean_operation, clean_operations, clean_path, clean_paths,
  clean_schema, openapi,
}
