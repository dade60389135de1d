-- ===== src/Web.antt =====
-- app/internal/web: the internal API of sish, the pages and actions of the browser, the rate limiter.
pub mod Host
pub mod Internal
pub mod Session
pub mod Action
pub mod Perform
pub mod Login
pub mod Pages
pub mod Paging
pub mod RateLimit
pub mod HostCheck
pub mod View
mod Tests
