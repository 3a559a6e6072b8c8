-- ===== src/Go.antt =====
-- What the program uses of the Go language and its standard library: errors and results, readers,
-- texts, UTF-8, `strings`, `net.SplitHostPort` and `time`.
pub mod Errors
pub mod Reader
pub mod Writer
pub mod Text
pub mod Utf8
pub mod Strings
pub mod HostPort
pub mod Time
pub mod Json
pub mod Defaults
