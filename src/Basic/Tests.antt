-- ===== src/Basic/Tests.antt =====
-- The metadata store of src/Basic/CAFStore.cpp on concrete names.
use caf.Prelude.{ℕ, ◌≡◌, refl, List, [], ◌∷◌}
use caf.Infrastructure.Result.{ok}
use caf.Basic.CafStore.{
  Function, new_caf_store, components, add_function, load, get_function, get_functions_count,
  to_json,
}
use caf.Basic.CafStore.Entries.{IsValid}
use caf.Basic.CafStore.Functions.{
  new_caf_store-IsValid, add_function-IsValid, load-IsValid, get_function-add_function,
}

-- "fs.open", "fs" and "fs.open.".
abbrev fs_open : List ℕ
fs_open = 102 ∷ 115 ∷ 46 ∷ 111 ∷ 112 ∷ 101 ∷ 110 ∷ []

abbrev fs : List ℕ
fs = 102 ∷ 115 ∷ []

abbrev fs_open_dot : List ℕ
fs_open_dot = 102 ∷ 115 ∷ 46 ∷ 111 ∷ 112 ∷ 101 ∷ 110 ∷ 46 ∷ []

components_runs : components fs_open ≡ fs ∷ (111 ∷ 112 ∷ 101 ∷ 110 ∷ []) ∷ []
unfolding components
components_runs = refl

-- A dot at the end adds no component, so the two names have one entry, which the later one takes.
to_json_same_entry : to_json (load (fs_open ∷ fs_open_dot ∷ []) new_caf_store) ≡ fs_open_dot ∷ []
unfolding load to_json new_caf_store
to_json_same_entry = refl

get_functions_count_runs : get_functions_count (load (fs_open ∷ fs ∷ []) new_caf_store) ≡ 2
unfolding load get_functions_count new_caf_store
get_functions_count_runs = refl

abbrev open_function : Function
open_function = record { id = 7; name = fs_open }

load-IsValid_example : IsValid (load (fs_open ∷ fs ∷ fs_open_dot ∷ []) new_caf_store)
load-IsValid_example = load-IsValid (fs_open ∷ fs ∷ fs_open_dot ∷ [])

add_function-IsValid_example : IsValid (add_function open_function (load (fs ∷ []) new_caf_store))
add_function-IsValid_example =
    add_function-IsValid open_function (load (fs ∷ []) new_caf_store) (load-IsValid (fs ∷ []))

get_function-add_function_example :
    get_function 7 (add_function open_function new_caf_store) ≡ ok open_function
unfolding new_caf_store
get_function-add_function_example =
    get_function-add_function open_function new_caf_store new_caf_store-IsValid refl
