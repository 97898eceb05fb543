-- ===== src/Basic/CafStore.antt =====
-- include/Basic/CAFStore.h, src/Basic/CAFStore.cpp and include/Basic/Function.h. A pointer to an entry
-- is the entry's position in `_entries`, which holds every entry from its creation on; the root is
-- the first one.
pub mod Entries
pub mod Descendents
pub mod Functions
use caf.Prelude.{
  ℕ, suc, ◌+◌, Bool, true, false, Option, none, some, List, [], ◌∷◌, ◌++◌, length, get_elem?, set,
  lookup, ◌==◌, if◌then◌else◌,
}
use caf.Infrastructure.Result.{Result, out_of_range, assertion, or_throw, ◌>>=◌}
use caf.Fuzzer.ObjectPool.{string_eq}

pub record Function : Type 0 where
  pub id : ℕ
  pub name : List ℕ

pub record Entry : Type 0 where
  pub func : Option Function
  pub children : List (List ℕ × ℕ)
  pub descendents : List ℕ

pub record CafStore : Type 0 where
  pub entries : List Entry
  pub func_id_to_entry : List (ℕ × ℕ)

abbrev pub new_entry : Entry
new_entry = record { func = none; children = []; descendents = [] }

unfoldable pub new_caf_store : CafStore
new_caf_store = record { entries = new_entry ∷ []; func_id_to_entry = [] }

unfoldable pub has_function : Entry → Bool
has_function e = elim e.func [ none ↦ false | some f ↦ true ]

-- Optional::value asserts that there is one.
unfoldable pub get_entry_function : Entry → Result Function
get_entry_function e = or_throw assertion e.func

-- `find`, and `emplace`, which leaves a name that is there as it is.
abbrev pub find_child : List ℕ → List (List ℕ × ℕ) → Option ℕ
find_child name [] = none
find_child name ((other, i) ∷ m) = if string_eq other name then some i else find_child name m

unfoldable pub add_child : List ℕ → ℕ → Entry → Entry
add_child name i e = elim (find_child name e.children) [
  | none ↦ record e { children = (name, i) ∷ e.children }
  | some j ↦ e
]

unfoldable pub add_descendent : ℕ → Entry → Entry
add_descendent i e = record e { descendents = e.descendents ++ i ∷ [] }

unfoldable pub set_function : Function → Entry → Entry
set_function f e = record e { func = some f }

-- A change of the entry that a pointer points to.
abbrev pub update_entry : ℕ → (Entry → Entry) → CafStore → CafStore
update_entry i change s = elim (get_elem? s.entries i) [
  | none ↦ s
  | some e ↦ record s { entries = set s.entries i (change e) }
]

unfoldable pub create_entry : CafStore → ℕ × CafStore
create_entry s = (length s.entries, record s { entries = s.entries ++ new_entry ∷ [] })

-- The name from `start` on, cut at each dot; a dot at the end begins no component.
unfoldable pub components_from : List ℕ → List ℕ → List (List ℕ)
components_from component [] = component ∷ []
components_from component (ch ∷ []) =
    if ch == b'.' then component ∷ [] else (component ++ ch ∷ []) ∷ []
components_from component (ch ∷ next ∷ rest) =
    let cut = component ∷ components_from [] (next ∷ rest) in
    let longer = components_from (component ++ ch ∷ []) (next ∷ rest) in
    if ch == b'.' then cut else longer

unfoldable pub components : List ℕ → List (List ℕ)
unfolding components_from
components [] = []
components (ch ∷ rest) = components_from [] (ch ∷ rest)

-- The child of that name, made if it is not there.
unfoldable pub enter_child : ℕ → List ℕ → CafStore → ℕ × CafStore
unfolding create_entry add_child
enter_child node name s = elim (get_elem? s.entries node) [
  | none ↦ (node, s)
  | some e ↦ elim (find_child name e.children) [
    | some i ↦ (i, s)
    | none ↦ let (i, s') = create_entry s in (i, update_entry node (add_child name i) s')
  ]
]

-- The path below a node: each entry on the way, the last one the entry of the whole name.
unfoldable pub walk : ℕ → List (List ℕ) → CafStore → List ℕ × ℕ × CafStore
unfolding enter_child
walk node [] s = (node ∷ [], node, s)
walk node (name ∷ names) s =
    let (child, s₁) = enter_child node name s in
    let (path, last, s₂) = walk child names s₁ in (node ∷ path, last, s₂)

unfoldable pub add_descendents : ℕ → List ℕ → CafStore → CafStore
unfolding add_descendent
add_descendents i [] s = s
add_descendents i (p ∷ path) s = add_descendents i path (update_entry p (add_descendent i) s)

-- `emplace` keeps the entry of an ID that is there.
abbrev pub emplace_id : ℕ → ℕ → CafStore → CafStore
emplace_id id node s = elim (lookup id s.func_id_to_entry) [
  | none ↦ record s { func_id_to_entry = (id, node) ∷ s.func_id_to_entry }
  | some i ↦ s
]

unfoldable pub add_function : Function → CafStore → CafStore
unfolding walk components set_function add_descendents
add_function f s =
    let (path, node, s₁) = walk 0 (components f.name) s in
    emplace_id f.id node (add_descendents node path (update_entry node (set_function f) s₁))

-- Load: the names of a JSON array, in order, are the functions 0, 1, ….
unfoldable pub load_from : ℕ → List (List ℕ) → CafStore → CafStore
unfolding add_function
load_from id [] s = s
load_from id (name ∷ names) s =
    load_from (id + 1) names (add_function (record { id = id; name = name }) s)

unfoldable pub load : List (List ℕ) → CafStore → CafStore
unfolding load_from
load names s = load_from 0 names s

unfoldable pub get_function : ℕ → CafStore → Result Function
unfolding get_entry_function
get_function id s = or_throw out_of_range (lookup id s.func_id_to_entry) >>= λ i.
    or_throw out_of_range (get_elem? s.entries i) >>= λ e. get_entry_function e

unfoldable pub get_entry : ℕ → CafStore → Result Entry
get_entry i s = or_throw out_of_range (get_elem? s.entries i)

abbrev pub count_functions : List Entry → ℕ
count_functions [] = 0
count_functions (e ∷ es) = if has_function e then suc (count_functions es) else count_functions es

unfoldable pub get_functions_count : CafStore → ℕ
unfolding has_function
get_functions_count s = count_functions s.entries

-- ToJson: the names of the entries that have a function.
abbrev pub function_names : List Entry → List (List ℕ)
function_names [] = []
function_names (e ∷ es) = elim e.func [
  | none ↦ function_names es
  | some f ↦ f.name ∷ function_names es
]

unfoldable pub to_json : CafStore → List (List ℕ)
to_json s = function_names s.entries
