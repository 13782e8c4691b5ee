-- ===== src/Registry.antt =====
-- src/registry/
pub mod Domain
pub mod GetEntry
pub mod Unknown
pub mod Descriptor
pub mod WellFormed
pub mod EntryChecks
pub mod DescriptorLaws
pub mod Capability
pub mod Validate
pub mod ReadCapability
pub mod Admin
pub mod ReuseLaws
pub mod CapabilityLaws
pub mod Tables
pub mod Registration
pub mod RegisterLaws
pub mod TrustTiers
pub mod Soundness
mod Tests
