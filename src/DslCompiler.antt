-- ===== src/DslCompiler.antt =====
-- src/dsl-compiler/
pub mod Domain
pub mod NodeWalk
pub mod SemanticValidation
pub mod Document
pub mod Walk
pub mod References
pub mod RegistryValidation
pub mod Registered
pub mod Plain
mod Tests
pub mod RestrictedYaml
pub mod Compile
pub mod Profile
pub mod Acceptance
