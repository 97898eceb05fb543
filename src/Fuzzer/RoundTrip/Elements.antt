-- ===== src/Fuzzer/RoundTrip/Elements.antt =====
-- The loop over the elements of an array, for a reader and a writer that agree on each element.
use caf.Prelude.{
  ℕ, suc, ◌+◌, ◌^◌, ◌≤◌, ◌<◌, ◌≡◌, ◌≢◌, refl, sym, ap, ◌∙◌, some, List, [], ◌∷◌, ◌++◌, length, set,
  arith, length-append, append_assoc, append-nil, get_elem?_bound, get_elem?-set_self,
  get_elem?-set_ne, length-set, All,
}
use caf.Infrastructure.Result.{Result, ok, throw, out_of_fuel, ◌>>=◌, Ensures-ok}
use caf.Infrastructure.Stream.{Bytes}
use caf.Fuzzer.Value.{Value, Arrays, elements, push}
use caf.Fuzzer.ObjectPool.{ObjectPool}
use caf.Fuzzer.ObjectPool.Contents.{IsValid, with_arrays-IsValid}
use caf.Fuzzer.Serializer.{SerializationContext, serialize_all, serialize_value}
use caf.Fuzzer.Serializer.Termination.{unvisited, Progress, Shrinks, serialize_value-Shrinks}
use caf.Fuzzer.Deserializer.{DeserializationContext, Reader, push_elements, deserialize_value}
use caf.Fuzzer.RoundTrip.{Corr, SameValues, Fits, Sim, Post}
use caf.Fuzzer.RoundTrip.Codes.{reader}
use caf.Fuzzer.RoundTrip.State.{SameValue-Extends, Post-refl, Post-trans}
use caf.Fuzzer.RoundTrip.Leaves.{Restored}

-- What the reader has done after the elements `xs` of the array `b`, which held `ys` before.
pub record LoopBack (heap : Arrays) (c : Corr) (s' : SerializationContext) (p : ObjectPool) (b : ℕ)
    (ys xs : List Value) (rest : Bytes) (result : Result Reader) : Type 0 where
  pub corr : Corr
  pub to : List Value
  pub objects : ObjectPool
  pub context : DeserializationContext
  pub reads : result ≡ ok (reader rest objects context)
  pub valid : IsValid objects
  pub post : Post heap c corr s' (length p.array_values) context objects.array_values
  pub keeps :
      (j : ℕ) (zs : List Value)
      → j ≢ b
      → elements p.array_values j ≡ some zs
      → elements objects.array_values j ≡ some zs
  pub stored : elements objects.array_values b ≡ some (ys ++ to)
  pub same : SameValues corr xs to

abbrev pub RestoredAll :
    Arrays → ℕ → List Value → SerializationContext → Result (Bytes × SerializationContext) → Type 0
RestoredAll heap g xs s (ok (bs, s')) =
    (c : Corr) (p : ObjectPool) (d : DeserializationContext) (rest : Bytes) (b : ℕ)
    (ys : List Value)
    → length (bs ++ rest) < g
    → Sim c s d (length p.array_values)
    → IsValid p
    → elements p.array_values b ≡ some ys
    → LoopBack heap c s' p b ys xs rest
        (push_elements (deserialize_value g) b (length xs) (reader (bs ++ rest) p d))
RestoredAll heap g xs s _ = Unit {0}

push_lem :
    (b : ℕ) (v : Value) (h : Arrays) (ys : List Value)
    → elements h b ≡ some ys
    → push b v h ≡ set h b (ys ++ v ∷ [])
unfolding push
push_lem b v h ys e = rw (e, push)

push_elements-suc :
    (next : Reader → Result (Value × Reader)) (b n : ℕ) (r : Reader) (input : Bytes)
    (p : ObjectPool) (d : DeserializationContext) (v : Value)
    → next r ≡ ok (v, reader input p d)
    → push_elements next b (suc n) r
      ≡ push_elements next b n
          (reader input (record p { array_values = push b v p.array_values }) d)
unfolding push_elements
push_elements-suc next b n r input p d v e = rw (e, push_elements)

-- One element and those after it.
cons-RestoredAll :
    (heap : Arrays) (g : ℕ) (x : Value) (xs : List Value) (s s₁ : SerializationContext) (bs : Bytes)
    → Restored heap g x s (ok (bs, s₁))
    → (r : Result (Bytes × SerializationContext)) → RestoredAll heap g xs s₁ r
    → RestoredAll heap g (x ∷ xs) s (r >>= λ (bs', s₂). ok (bs ++ bs', s₂))
cons-RestoredAll heap g x xs s s₁ bs head (throw e) tail = tt
cons-RestoredAll heap g x xs s s₁ bs head out_of_fuel tail = tt
cons-RestoredAll heap g x xs s s₁ bs head (ok (bs₂, s₂)) tail =
    λ c p d rest b ys small sim valid held.
      let whole = append_assoc bs bs₂ rest in
      let small' : length (bs ++ (bs₂ ++ rest)) < g = rw whole at small in
      let first = head c p d (bs₂ ++ rest) small' sim valid in
      let old = first.objects.array_values in
      let kept = first.keeps b ys held in
      let pushed = push_lem b first.value old ys kept in
      let size : length (push b first.value old) ≡ length old =
        rw pushed (length-set old b (ys ++ first.value ∷ [])) in
      let b_old = get_elem?_bound old b ys kept in
      let b_first = get_elem?_bound p.array_values b ys held in
      let p₁ : ObjectPool = record (first.objects) { array_values = push b first.value old } in
      let others : (j : ℕ) (zs : List Value)
          → j ≢ b
          → elements old j ≡ some zs
          → elements (push b first.value old) j ≡ some zs =
        λ j zs ne e. rw pushed (get_elem?-set_ne old b j _ (λ q. ne (sym q)) ∙ e) in
      let more =
        tail first.corr p₁ first.context rest b (ys ++ first.value ∷ [])
          (omega (arith, length-append bs (bs₂ ++ rest))) (rw size first.post.sim)
          (with_arrays-IsValid first.objects first.valid _)
          (rw pushed (get_elem?-set_self old b (ys ++ first.value ∷ []) b_old)) in
      record {
        corr = more.corr;
        to = first.value ∷ more.to;
        objects = more.objects;
        context = more.context;
        reads =
            ap (λ t. push_elements (deserialize_value g) b (suc (length xs)) (reader t p d)) whole
            ∙ push_elements-suc (deserialize_value g) b (length xs) _ (bs₂ ++ rest) first.objects
                first.context first.value first.reads
            ∙ more.reads;
        valid = more.valid;
        post =
            Post-trans heap old more.objects.array_values c first.corr more.corr s₁ s₂ _ _
              first.context more.context first.post more.post
              (omega (arith, size, first.post.grows))
              (λ j zs le e.
                more.keeps j zs (omega (arith, le, b_first))
                  (others j zs (omega (arith, le, b_first)) e));
        keeps = λ j zs ne e. more.keeps j zs ne (others j zs ne (first.keeps j zs e));
        stored = more.stored ∙ ap some (append_assoc ys (first.value ∷ []) more.to);
        same = (
          SameValue-Extends first.corr more.corr more.post.extends x first.value first.same,
          more.same,
        );
      }

-- What is left to pay for: fuel, and indexes of four bytes.
abbrev pub Room : Arrays → ℕ → SerializationContext → Type 0
Room heap f s = (unvisited heap s < f) × (s.index_alloc + unvisited heap s ≤ 2 ^ 32)

-- The statement for all values, at one amount of the writer's fuel.
abbrev pub RestoresValues : Arrays → ℕ → Type 0
RestoresValues heap f =
    (g : ℕ) (v : Value) (s : SerializationContext)
    → Fits v
    → Room heap f s
    → Restored heap g v s (serialize_value f heap v s)

head-RestoredAll :
    (heap : Arrays) (f g : ℕ) (x : Value) (xs : List Value) (s : SerializationContext)
    → ((s₁ : SerializationContext)
        → Progress heap s s₁
        → RestoredAll heap g xs s₁ (serialize_all (serialize_value f heap) xs s₁))
    → (r : Result (Bytes × SerializationContext)) → Restored heap g x s r
    → Shrinks heap s r
    → RestoredAll heap g (x ∷ xs) s (
        r >>= λ (bs, s₁).
        serialize_all (serialize_value f heap) xs s₁ >>= λ (bs', s₂). ok (bs ++ bs', s₂))
head-RestoredAll heap f g x xs s tail (throw e) back progress = tt
head-RestoredAll heap f g x xs s tail out_of_fuel back progress = tt
head-RestoredAll heap f g x xs s tail (ok (bs, s₁)) back progress =
    cons-RestoredAll heap g x xs s s₁ bs back (serialize_all (serialize_value f heap) xs s₁)
      (tail s₁ (Ensures-ok (λ p. Progress heap s p.1) refl progress))

pub elements-RestoredAll :
    (heap : Arrays) (f : ℕ)
    → RestoresValues heap f
    → (g : ℕ) (xs : List Value) (s : SerializationContext) → All Fits xs
    → Room heap f s
    → RestoredAll heap g xs s (serialize_all (serialize_value f heap) xs s)
unfolding serialize_all push_elements
elements-RestoredAll heap f ih g [] s fits room = λ c p d rest b ys small sim valid held. record {
  corr = c;
  to = [];
  objects = p;
  context = d;
  reads = refl;
  valid = valid;
  post = Post-refl heap p.array_values c s d sim;
  keeps = λ j zs ne e. e;
  stored = rw append-nil held;
  same = tt;
}
elements-RestoredAll heap f ih g (x ∷ xs) s fits room =
    head-RestoredAll heap f g x xs s
      (λ s₁ progress. elements-RestoredAll heap f ih g xs s₁ fits.1 (omega arith))
      (serialize_value f heap x s) (ih g x s fits.0 room)
      (serialize_value-Shrinks heap f x s room.0)
