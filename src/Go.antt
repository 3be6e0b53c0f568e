-- ===== src/Go.antt =====
-- What the program uses of Go's standard library: strings, path names, and the calls of `os`.
pub mod Strings
pub mod Find
pub mod Words
pub mod FilePath
pub mod Os
pub mod Names
pub mod Glob
pub mod Strconv
pub mod Duration
pub mod Sort
pub mod Lines
pub mod Slog
