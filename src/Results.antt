-- ===== src/Results.antt =====
-- Exceptions as values: what a call may throw, the monad of fallible calls, and the loops that
-- collect results.
mod Core
mod Collect
pub use Core.*
unfoldable pub use Collect.*
