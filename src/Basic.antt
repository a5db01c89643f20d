-- ===== src/Basic.antt =====
-- lib/Basic and include/u-lang/Basic.
pub mod SourceLocation
pub mod Stream
pub mod Source
pub mod SourceManager
pub mod TokenKinds
pub mod DiagnosticIds
pub mod Diagnostic
pub mod Format
pub mod PunctuatorTable
pub mod IdentifierTable
pub mod Truncation
