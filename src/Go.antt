-- ===== src/Go.antt =====
-- What the program uses of Go's standard library: texts, times and durations, big-endian numbers.
pub mod Text
pub mod Time
pub mod BigInt
pub mod Atoi
pub mod Map
pub mod Base64
pub mod Url
