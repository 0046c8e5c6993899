-- ===== src/Arith.antt =====
-- crates/omsh-exec/src/expand/arith.rs: `$(( ... ))`.
pub mod Word
pub mod Number
pub mod Token
pub mod Variable
pub mod Eval
pub mod Operators
pub mod Parser
