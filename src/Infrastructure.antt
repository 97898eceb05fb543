-- ===== src/Infrastructure.antt =====
-- include/Infrastructure: what every other part of the fuzzer stands on.
pub mod Result
pub mod Stream
pub mod Random
