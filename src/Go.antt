-- ===== src/Go.antt =====
-- What the program uses of Go's `strings`, `strconv`, `path` and `fmt`, over byte strings.
pub mod Text
pub mod Number
pub mod Path
