-- ===== src/Tests.antt =====
-- Runs of the modelled code of docsifer at fixed inputs.
mod Gates
mod Hosts
mod Requests
mod Ledgers
mod Settings
mod Calendar
mod Conversions
mod Clients
mod Startup
mod Reload
mod Endpoint
mod Server
mod Workers
