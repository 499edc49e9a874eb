-- ===== src/Lexer.antt =====
-- pkg/lexer: the lexer of SQL.
pub mod Token
pub mod Keywords
pub mod State
pub mod Readers
pub mod Blob
pub mod Operators
pub mod Next
mod Tests
pub mod Moves
pub mod Total
pub mod Progress
pub mod Blobs
pub mod Switch
pub mod Stream
pub mod Names
pub mod Quoting
