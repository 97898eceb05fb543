-- ===== src/Basic.antt =====
-- include/Basic and src/Basic: the store of the functions that the fuzzer may call.
pub mod CafStore
mod Tests
