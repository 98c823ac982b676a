-- ===== src/Search.antt =====
-- crates/api/src/search: the query language, its evaluation, and the search sessions.
pub mod Truth
pub mod Syntax
pub mod Record
pub mod Eval
pub mod Scalars
pub mod Lexer
pub mod Scalar
pub mod Parser
pub mod Request
pub mod Scope
pub mod Thing
pub mod Page
pub mod Session
pub mod Service
mod Examples
