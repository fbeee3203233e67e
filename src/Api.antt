-- ===== src/Api.antt =====
-- docsifer/api: the HTTP layer, a module for each file of the package.
pub mod ErrorHandlers
pub mod Upload
pub mod Schemas
pub mod Convert
pub mod Probes
pub mod Middleware
pub mod Deps
pub mod Server
