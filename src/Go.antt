-- ===== src/Go.antt =====
-- What the program uses of Go and its standard library: strings, errors, time and effects.
pub mod Text
pub mod Errors
pub mod Action
pub mod Time
