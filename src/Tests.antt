-- ===== src/Tests.antt =====
-- The theorems at concrete inputs, and runs of the definitions.
mod Samples
mod RunTests
mod StateTests
mod PluginTests
mod RegistryTests
mod PolicyTests
mod WorkflowTests
mod ValidationTests
mod CheckpointTests
