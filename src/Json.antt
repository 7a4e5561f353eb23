-- ===== src/Json.antt =====
-- MyJson/tutorial08: a JSON parser and generator over C strings and a tree of values.
pub mod Syntax
pub mod Buffer
pub mod Scan
pub mod Run
pub mod Text
pub mod Parse
pub mod Print
pub mod Access
pub mod Equal
pub mod Array
pub mod Object
mod Examples
