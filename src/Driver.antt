-- ===== src/Driver.antt =====
-- The driver service, services/driverd.
pub mod Error
pub mod Inventory
pub mod Modalias
pub mod Kernel
pub mod Score
pub mod Matching
pub mod Conflict
pub mod Audit
pub mod System
pub mod World
pub mod Authz
pub mod Kmod
pub mod Verification
pub mod Engine
pub mod Metadata
pub mod Source
pub mod Repository
pub mod Selector
pub mod Web
pub mod Fetch
pub mod Download
pub mod Cache
pub mod Package
pub mod Hwdetect
pub mod Scanner
mod Samples
