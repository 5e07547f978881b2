-- ===== src/Text.antt =====
-- The functions of Go's standard library on strings (strings, bytes, encoding/hex, strconv) that the
-- API uses. A Go string is its bytes.
pub mod Defs
pub mod Equality
pub mod Hex
pub mod Parsing
pub mod Print
pub mod PrintLaws
pub mod Lacks
pub mod Utf8
unfoldable pub use Defs.*
pub use Equality.*
