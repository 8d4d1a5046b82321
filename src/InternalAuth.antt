-- ===== src/InternalAuth.antt =====
-- browser/internal_auth.cc: passports, which the browser generates and verifies for its own requests.
-- `Defs` has the passports themselves, `Verification` and `Generation` the two services.
pub mod Defs
pub mod Ticks
pub mod Blob
pub mod Passport
pub mod Verification
pub mod Generation
pub mod Agreement
pub mod RoundTrip
pub mod Examples
