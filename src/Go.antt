-- ===== src/Go.antt =====
-- What the program uses of Go's standard library, and values that Go functions return.
pub mod Result
pub mod Strconv
pub mod Strings
pub mod Time
pub mod Map
pub mod Scan
pub mod Sort
pub mod Hex
pub mod Url
pub mod Json
