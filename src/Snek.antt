-- ===== src/Snek.antt =====
-- The snek language (serpentine/src/snek).
pub mod Span
pub mod Token
pub mod CompileError
pub mod Ast
pub mod Parser
pub mod Ir
pub mod Tokenizer
pub mod Compiler
pub mod VirtualFile
pub mod Scope
pub mod Resolver
pub mod CompileGraph
