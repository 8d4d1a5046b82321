-- ===== src/Bitmap.antt =====
-- browser/bitmap_fetcher/: images for answers in the address bar. `Service` has the service and its
-- fetchers.
pub mod Service
pub mod Sound
pub mod Observers
pub mod Cached
pub mod Cancelled
mod Examples
