-- ===== src/Fuzzer/Synthesis/Modules.antt =====
-- src/Fuzzer/NodejsSynthesisBuilder.cpp: the modules of Node.js that a function can belong to.
use caf.Prelude.{ℕ, Bool, false, ◌&&◌, ◌||◌, List, [], ◌∷◌, ◌==◌, if◌then◌else◌}
use caf.Fuzzer.ObjectPool.{string_eq}
use caf.Fuzzer.Synthesis.{Library}

-- The names, in the order of the source, as ASCII.
abbrev pub native_module_names : List (List ℕ)
native_module_names =
    (97 ∷ 115 ∷ 121 ∷ 110 ∷ 99 ∷ 95 ∷ 104 ∷ 111 ∷ 111 ∷ 107 ∷ 115 ∷ [])
    ∷ (98 ∷ 117 ∷ 102 ∷ 102 ∷ 101 ∷ 114 ∷ [])
    ∷ (99 ∷ 104 ∷ 105 ∷ 108 ∷ 100 ∷ 95 ∷ 112 ∷ 114 ∷ 111 ∷ 99 ∷ 101 ∷ 115 ∷ 115 ∷ [])
    ∷ (99 ∷ 108 ∷ 117 ∷ 115 ∷ 116 ∷ 101 ∷ 114 ∷ [])
    ∷ (99 ∷ 111 ∷ 110 ∷ 115 ∷ 111 ∷ 108 ∷ 101 ∷ [])
    ∷ (99 ∷ 111 ∷ 110 ∷ 115 ∷ 116 ∷ 97 ∷ 110 ∷ 116 ∷ 115 ∷ [])
    ∷ (99 ∷ 114 ∷ 121 ∷ 112 ∷ 116 ∷ 111 ∷ [])
    ∷ (100 ∷ 103 ∷ 114 ∷ 97 ∷ 109 ∷ [])
    ∷ (100 ∷ 110 ∷ 115 ∷ [])
    ∷ (100 ∷ 111 ∷ 109 ∷ 97 ∷ 105 ∷ 110 ∷ [])
    ∷ (101 ∷ 118 ∷ 101 ∷ 110 ∷ 116 ∷ 115 ∷ [])
    ∷ (102 ∷ 115 ∷ [])
    ∷ (104 ∷ 116 ∷ 116 ∷ 112 ∷ [])
    ∷ (104 ∷ 116 ∷ 116 ∷ 112 ∷ 50 ∷ [])
    ∷ (104 ∷ 116 ∷ 116 ∷ 112 ∷ 115 ∷ [])
    ∷ (105 ∷ 110 ∷ 115 ∷ 112 ∷ 101 ∷ 99 ∷ 116 ∷ 111 ∷ 114 ∷ [])
    ∷ (109 ∷ 111 ∷ 100 ∷ 117 ∷ 108 ∷ 101 ∷ [])
    ∷ (110 ∷ 101 ∷ 116 ∷ [])
    ∷ (111 ∷ 115 ∷ [])
    ∷ (112 ∷ 97 ∷ 116 ∷ 104 ∷ [])
    ∷ (112 ∷ 101 ∷ 114 ∷ 102 ∷ 95 ∷ 104 ∷ 111 ∷ 111 ∷ 107 ∷ 115 ∷ [])
    ∷ (112 ∷ 114 ∷ 111 ∷ 99 ∷ 101 ∷ 115 ∷ 115 ∷ [])
    ∷ (112 ∷ 117 ∷ 110 ∷ 121 ∷ 99 ∷ 111 ∷ 100 ∷ 101 ∷ [])
    ∷ (113 ∷ 117 ∷ 101 ∷ 114 ∷ 121 ∷ 115 ∷ 116 ∷ 114 ∷ 105 ∷ 110 ∷ 103 ∷ [])
    ∷ (114 ∷ 101 ∷ 97 ∷ 100 ∷ 108 ∷ 105 ∷ 110 ∷ 101 ∷ [])
    ∷ (114 ∷ 101 ∷ 112 ∷ 108 ∷ [])
    ∷ (115 ∷ 116 ∷ 114 ∷ 101 ∷ 97 ∷ 109 ∷ [])
    ∷ (115 ∷ 116 ∷ 114 ∷ 105 ∷ 110 ∷ 103 ∷ 95 ∷ 100 ∷ 101 ∷ 99 ∷ 111 ∷ 100 ∷ 101 ∷ 114 ∷ [])
    ∷ (115 ∷ 121 ∷ 115 ∷ [])
    ∷ (116 ∷ 105 ∷ 109 ∷ 101 ∷ 114 ∷ 115 ∷ [])
    ∷ (116 ∷ 108 ∷ 115 ∷ [])
    ∷ (116 ∷ 114 ∷ 97 ∷ 99 ∷ 101 ∷ 95 ∷ 101 ∷ 118 ∷ 101 ∷ 110 ∷ 116 ∷ 115 ∷ [])
    ∷ (116 ∷ 116 ∷ 121 ∷ [])
    ∷ (117 ∷ 114 ∷ 108 ∷ [])
    ∷ (117 ∷ 116 ∷ 105 ∷ 108 ∷ [])
    ∷ (118 ∷ 56 ∷ [])
    ∷ (118 ∷ 109 ∷ [])
    ∷ (119 ∷ 111 ∷ 114 ∷ 107 ∷ 101 ∷ 114 ∷ 95 ∷ 116 ∷ 104 ∷ 114 ∷ 101 ∷ 97 ∷ 100 ∷ 115 ∷ [])
    ∷ (122 ∷ 108 ∷ 105 ∷ 98 ∷ [])
    ∷ []

abbrev pub is_native_module : List ℕ → List (List ℕ) → Bool
is_native_module m [] = false
is_native_module m (n ∷ ns) = string_eq n m || is_native_module m ns

abbrev pub has_dot : List ℕ → Bool
has_dot [] = false
has_dot (c ∷ s) = c == 46 || has_dot s

-- The name up to the first dot, or all of it.
unfoldable pub module_name : List ℕ → List ℕ
module_name [] = []
module_name (c ∷ s) = let rest = module_name s in if c == 46 then [] else c ∷ rest

module _ (library : Library) where
  unfoldable pub is_in_module : List ℕ → Bool
  unfolding module_name
  is_in_module [] = false
  is_in_module (c ∷ s) =
      library.is_lower c
      && has_dot (c ∷ s)
      && is_native_module (module_name (c ∷ s)) native_module_names
