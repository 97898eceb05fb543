-- ===== src/Fuzzer.antt =====
-- include/Fuzzer and src/Fuzzer: test cases, and how they are stored, read, made and mutated.
pub mod Value
pub mod TestCase
pub mod ObjectPool
pub mod Serializer
pub mod Scope
pub mod Deserializer
pub mod RoundTrip
pub mod Generation
pub mod Generator
pub mod Mutator
pub mod Synthesis
pub mod AflExport
mod Tests
mod PoolTests
mod GeneratorTests
mod MutatorTests
mod SynthesisTests
