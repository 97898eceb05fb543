-- ===== src/Basic/CafStore/Functions.antt =====
-- The functions of a store, as src/Basic/CAFStore.cpp adds them.
use caf.Prelude.{
  ℕ, ◌+◌, ◌≡◌, refl, ap, ◌∙◌, none, some, List, [], ◌∷◌, length, get_elem?, lookup, inl, inr,
  Option-cases, arith,
}
use caf.Infrastructure.Result.{ok}
use caf.Basic.CafStore.{
  Function, Entry, CafStore, new_caf_store, find_child, add_child, add_descendent, set_function,
  update_entry, create_entry, enter_child, walk, add_descendents, emplace_id, add_function,
  load_from, load, get_function, get_entry_function, components,
}
use caf.Basic.CafStore.Entries.{Contains, IsValid, Contains-set_other}
use caf.Basic.CafStore.Descendents.{
  walk-Walks, set_function-Leaves, set_function-Contains, add_descendents-Leaves,
}

pub new_caf_store-IsValid : IsValid new_caf_store
unfolding new_caf_store
new_caf_store-IsValid = record {
  root = omega arith;
  entries = (record { children = tt; descendents = tt }, tt);
}

emplace_id-IsValid : (id node : ℕ) (s : CafStore) → IsValid s → IsValid (emplace_id id node s)
emplace_id-IsValid id node s v = elim (Option-cases (lookup id s.func_id_to_entry)) [
  | inl absent ↦ rw (absent, emplace_id) (record { root = v.root; entries = v.entries })
  | inr (i, there) ↦ rw (there, emplace_id) v
]

-- A valid store, whose entries have children in the store and descendents that contain functions,
-- stays valid when a function is added.
pub add_function-IsValid : (f : Function) (s : CafStore) → IsValid s → IsValid (add_function f s)
unfolding add_function
add_function-IsValid f s v =
    let w = walk-Walks 0 (components f.name) s v v.root in
    let (path, node, s₁) = walk 0 (components f.name) s in
    let l = set_function-Leaves s₁ w.leaves.valid node f in
    emplace_id-IsValid f.id node _
      (add_descendents-Leaves node path _ l.valid
        (f, set_function-Contains s₁ w.leaves.valid node f w.below)).valid

load_from-IsValid :
    (id : ℕ) (names : List (List ℕ)) (s : CafStore) → IsValid s → IsValid (load_from id names s)
unfolding load_from
load_from-IsValid id [] s v = v
load_from-IsValid id (name ∷ names) s v =
    load_from-IsValid (id + 1) names _ (add_function-IsValid (record { id = id; name = name }) s v)

-- In a store that is loaded from any names, every descendent that an entry can select contains a
-- function, and every child is an entry of the store.
pub load-IsValid : (names : List (List ℕ)) → IsValid (load names new_caf_store)
unfolding load
load-IsValid names = load_from-IsValid 0 names new_caf_store new_caf_store-IsValid

add_descendents-Contains :
    (f : Function) (d i : ℕ) (path : List ℕ) (s : CafStore)
    → Contains s.entries d f
    → Contains (add_descendents i path s).entries d f
unfolding add_descendents add_descendent
add_descendents-Contains f d i [] s h = h
add_descendents-Contains f d i (p ∷ path) s h =
    add_descendents-Contains f d i path _ (elim (Option-cases (get_elem? s.entries p)) [
      | inl absent ↦ rw (absent, update_entry) h
      | inr (e, at_p) ↦
          rw (at_p, update_entry)
            (Contains-set_other s.entries p e (add_descendent i e) at_p f d refl h)
    ])

get_function-Contains :
    (id node : ℕ) (f : Function) (s : CafStore)
    → lookup id s.func_id_to_entry ≡ some node
    → Contains s.entries node f
    → get_function id s ≡ ok f
unfolding get_function get_entry_function
get_function-Contains id node f s found (e, at_node, h) = rw (found, at_node, h)

emplace_id-get_function :
    (id node : ℕ) (f : Function) (s : CafStore)
    → lookup id s.func_id_to_entry ≡ none
    → Contains s.entries node f
    → get_function id (emplace_id id node s) ≡ ok f
emplace_id-get_function id node f s absent h =
    get_function-Contains id node f (emplace_id id node s) (rw (absent, emplace_id) (ground arith))
      (rw (absent, emplace_id) h)

-- The map of IDs is only changed at the end.
update_entry-ids :
    (i : ℕ) (change : Entry → Entry) (s : CafStore)
    → (update_entry i change s).func_id_to_entry ≡ s.func_id_to_entry
update_entry-ids i change s = elim (Option-cases (get_elem? s.entries i)) [
  | inl absent ↦ rw (absent, update_entry)
  | inr (e, there) ↦ rw (there, update_entry)
]

enter_child-ids :
    (node : ℕ) (name : List ℕ) (s : CafStore)
    → (enter_child node name s).1.func_id_to_entry ≡ s.func_id_to_entry
unfolding enter_child create_entry
enter_child-ids node name s = elim (Option-cases (get_elem? s.entries node)) [
  | inl absent ↦ rw (absent, enter_child)
  | inr (e, at_node) ↦ elim (Option-cases (find_child name e.children)) [
    | inl absent ↦
        rw (at_node, enter_child, absent)
          (update_entry-ids node (add_child name (length s.entries)) (create_entry s).1)
    | inr (i, there) ↦ rw (at_node, enter_child, there)
  ]
]

walk-ids :
    (node : ℕ) (names : List (List ℕ)) (s : CafStore)
    → (walk node names s).2.func_id_to_entry ≡ s.func_id_to_entry
unfolding walk
walk-ids node [] s = refl
walk-ids node (name ∷ names) s =
    walk-ids (enter_child node name s).0 names (enter_child node name s).1
    ∙ enter_child-ids node name s

add_descendents-ids :
    (i : ℕ) (path : List ℕ) (s : CafStore)
    → (add_descendents i path s).func_id_to_entry ≡ s.func_id_to_entry
unfolding add_descendents
add_descendents-ids i [] s = refl
add_descendents-ids i (p ∷ path) s =
    add_descendents-ids i path (update_entry p (add_descendent i) s)
    ∙ update_entry-ids p (add_descendent i) s

-- A function that is added to a valid store under an ID that the store does not have is found by
-- that ID.
pub get_function-add_function :
    (f : Function) (s : CafStore)
    → IsValid s
    → lookup f.id s.func_id_to_entry ≡ none
    → get_function f.id (add_function f s) ≡ ok f
unfolding add_function
get_function-add_function f s v absent =
    let w = walk-Walks 0 (components f.name) s v v.root in
    let (path, node, s₁) = walk 0 (components f.name) s in
    let s₂ = update_entry node (set_function f) s₁ in
    emplace_id-get_function f.id node f (add_descendents node path s₂)
      (ap (λ ids. lookup f.id ids)
          (add_descendents-ids node path s₂
            ∙ update_entry-ids node (set_function f) s₁
            ∙ walk-ids 0 (components f.name) s)
        ∙ absent)
      (add_descendents-Contains f node node path s₂
        (set_function-Contains s₁ w.leaves.valid node f w.below))
