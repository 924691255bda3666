-- ===== src/Sql.antt =====
-- The SQL subset of src/sql: syntax trees, the parser, and the evaluation of WHERE clauses.
pub mod Ast
pub mod Token
pub mod Parser
pub mod Values
pub mod Lexer
pub mod Text
pub mod Eval
pub mod KeyRange
pub mod Select
pub mod Write
