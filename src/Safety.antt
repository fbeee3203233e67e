-- ===== src/Safety.antt =====
-- docsifer/safety: the anti-crash primitives, a module for each file of the package.
pub mod CircuitBreaker
pub mod ConversionGate
pub mod Semaphore
pub mod PerIpLimiter
pub mod ResourceGuard
pub mod MemoryWatchdog
pub mod DiskCleanup
