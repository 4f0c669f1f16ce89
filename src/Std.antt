-- ===== src/Std.antt =====
-- The containers of src/packages/std that the engine stands on.
pub mod Array
pub mod Stack
pub mod Queue
pub mod Hash
pub mod CString
pub mod Lexer
pub mod LinkedList
pub mod Deque
pub mod Utf8
mod Tests
