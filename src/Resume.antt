-- ===== src/Resume.antt =====
-- lib/copernicus_download_validation.h, lib/copernicus_resume_state.h and
-- lib/copernicus_source_publish.h: which HTTP responses may complete or extend a source file, the
-- saved state of an interrupted download, and the publication of a source.
pub mod Search
pub mod Decimal
pub mod ContentRange
pub mod Classify
pub mod Files
pub mod Partial
pub mod Append
pub mod Publish
pub mod Instances
mod Examples
