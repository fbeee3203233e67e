-- ===== src/Core.antt =====
-- docsifer/core: the conversion logic, a module for each file of the package.
pub mod UrlGuard
pub mod LlmRegistry
pub mod Tokenizer
pub mod Mime
pub mod HtmlCleaner
pub mod Service
