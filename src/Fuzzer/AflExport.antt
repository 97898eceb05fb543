-- ===== src/Fuzzer/AflExport.antt =====
-- src/Fuzzer/AFLExport.cpp: what AFL++ calls to mutate an input, with the store that is loaded already.
use caf.Prelude.{ℕ, length, leb, if◌then◌else◌}
use caf.Infrastructure.Result.{Result, ok, throw, assertion, ◌>>=◌}
use caf.Infrastructure.Random.{Platform}
use caf.Infrastructure.Stream.{Bytes}
use caf.Basic.CafStore.{CafStore}
use caf.Fuzzer.ObjectPool.{new_object_pool}
use caf.Fuzzer.Serializer.{serialize}
use caf.Fuzzer.Deserializer.{deserialize}
use caf.Fuzzer.Generator.{default_options}
use caf.Fuzzer.Mutator.Calls.{mutate}

module _ (platform : Platform) where
  -- afl_custom_mutator; `seeded` is the engine after it is seeded.
  unfoldable pub afl_custom_mutator : CafStore → platform.Engine → Bytes → ℕ → Result Bytes
  unfolding deserialize new_object_pool mutate serialize
  afl_custom_mutator store seeded input max_size =
      deserialize new_object_pool input >>= λ (t, reader).
      mutate platform store default_options t (record { objects = reader.objects; engine = seeded })
      >>= λ (t', g). serialize g.objects.array_values t' >>= λ bytes.
          if leb (length bytes) max_size then ok bytes else throw assertion
