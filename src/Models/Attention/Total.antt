-- ===== src/Models/Attention/Total.antt =====
-- When `paged_attention` (crates/orion-models/src/attention.rs) returns: the block table covers the
-- query's position and names blocks of the arena.
use native.Mathlib.Nat.{div-lt_iff_lt-mul, mod-lt, suc-mul}
use orion_serve_rs.Prelude.{
  ◌==◌, false, ℕ, zero, suc, ◌+◌, ◌*◌, ◌/◌, ◌%◌, ◌≤◌, ◌<◌, ◌≡◌, refl, sym, ◌∙◌, subst, Bool, true,
  false, some, List, [], ◌∷◌, arith, if◌then◌else◌, length, get_elem?, get_elem?_of_lt, All, cut,
  replicate, map, length-append, length-replicate, length-cut, if_elim,
}
use orion_serve_rs.Core.Float32.{f32_eq}
use orion_serve_rs.Models.Run.{Run, returned, failed, panic, Returns, returns}
use orion_serve_rs.Models.Float.{Floats}
use orion_serve_rs.Models.Store.{KvStore}
use orion_serve_rs.Models.Store.Offsets.{Sized, Slot, Fits, offset_of, slot_inside}
use orion_serve_rs.Models.Store.Access.{read_at-Fits}
use orion_serve_rs.Models.Tensor.{dot_from, softmax_inplace}
use orion_serve_rs.Models.Tensor.Shape.{HasLength, length-zip_in_place}
use orion_serve_rs.Models.Attention.{
  AttentionArgs, locate, fetch, accumulate, scale_of, paged_attention,
}
use orion_serve_rs.Models.Attention.Dense.{
  tabulate, Grouped, Caches, mix_values, dense_head, dense_heads, paged_attention-dense_attention,
}

-- The arguments are about this arena, and their table reaches the query's position.
pub record Covers (store : KvStore) (args : AttentionArgs) : Type 0 where
  pub sized : Sized store
  pub layer_lt : args.layer < store.num_layers
  pub kv_heads : args.num_kv_heads ≡ store.num_kv_heads
  pub head_dim : args.head_dim ≡ store.head_dim
  pub block_size : args.block_size ≡ store.block_size
  pub positive : 0 < args.block_size
  pub reaches : args.query_position < length args.block_table * args.block_size
  pub known : All (λ b. b < store.num_blocks) args.block_table

pub some_injective {ℓ} : {A : Type ℓ} {a b : A} → some a ≡ some b → a ≡ b
some_injective e = cc

pub All-get_elem? {ℓ κ} :
    {A : Type ℓ} (P : A → Type κ) (xs : List A) (i : ℕ) {a : A}
    → All P xs
    → get_elem? xs i ≡ some a
    → P a
All-get_elem? P [] i h e = cc
All-get_elem? P (x ∷ xs) zero h e = subst P (some_injective e) h.0
All-get_elem? P (x ∷ xs) (suc i) h e = All-get_elem? P xs i h.1 e

-- A position within the table has a block of the table, and a slot of the block.
pub locate_inside :
    (P : ℕ → Type 0) (table : List ℕ) (pos block_size : ℕ)
    → 0 < block_size
    → pos < length table * block_size
    → All P table
    → (b : ℕ) × (locate table pos block_size ≡ returned (some (b, pos % block_size))) × P b
unfolding locate
locate_inside P table pos block_size positive h known =
    let (b, found) = get_elem?_of_lt table (pos / block_size) ((div-lt_iff_lt-mul positive).1 h) in
    let some_slots : (block_size == 0) ≡ false = ground arith in
    (b, rw (some_slots, found, locate) refl, All-get_elem? P table (pos / block_size) known found)

module _ (store : KvStore) (args : AttentionArgs) (c : Covers store args) where
  fetch-HasLength :
      (head : ℕ) (is_value : Bool) (pos : ℕ)
      → head < args.num_kv_heads
      → pos ≤ args.query_position
      → Returns (HasLength args.head_dim) (fetch store args head is_value pos)
  fetch-HasLength head is_value pos h l =
      let (b, found, known) =
        locate_inside (λ b. b < store.num_blocks) args.block_table pos args.block_size c.positive
          (omega (arith, c.reaches)) c.known in
      let p : Slot = record {
        layer = args.layer;
        block = b;
        slot = pos % args.block_size;
        head = head;
        is_value = is_value;
      } in
      let fits : Fits store p = record {
        layer_lt = c.layer_lt;
        block_lt = known;
        slot_lt = subst (λ n. pos % args.block_size < n) c.block_size (mod-lt pos c.positive);
        head_lt = omega (arith, c.kv_heads);
      } in
      rw (found, read_at-Fits store p c.sized fits)
        (returns (
          length-cut store.elements (offset_of store p) store.head_dim
            (slot_inside store p c.sized fits)
          ∙ sym c.head_dim))

  abbrev pub or_nil : Run (List ℕ) → List ℕ
  or_nil (returned v) = v
  or_nil (failed e) = []
  or_nil panic = []

  or_nil_lem : (n : ℕ) (r : Run (List ℕ)) → Returns (HasLength n) r → r ≡ returned (or_nil r)
  or_nil_lem n r (returns l) = refl

  abbrev pub stored : Bool → ℕ → ℕ → List ℕ
  stored is_value head pos = or_nil (fetch store args head is_value pos)

  pub Covers-Caches : Caches store args (stored false) (stored true)
  Covers-Caches = record {
    key = λ head pos h l. or_nil_lem _ _ (fetch-HasLength head false pos h l);
    value = λ head pos h l. or_nil_lem _ _ (fetch-HasLength head true pos h l);
  }

module _ (f : Floats) where
  length-mix_values :
      (ws : List ℕ) (vs : List (List ℕ)) (o : List ℕ) → length (mix_values f ws vs o) ≡ length o
  length-mix_values [] vs o = refl
  length-mix_values (w ∷ ws) [] o = refl
  length-mix_values (w ∷ ws) (v ∷ vs) o =
      length-mix_values ws vs (if f32_eq w 0 then o else accumulate f w o v)
      ∙ if_elim (λ r. length r ≡ length o) (f32_eq w 0) (λ _. refl) (λ _. length-zip_in_place _ o v)

  length-dense_head :
      (d : ℕ) (q : List ℕ) (ks vs : List (List ℕ)) → length (dense_head f d q ks vs) ≡ d
  length-dense_head d q ks vs =
      let scores = map (λ k. f.mul (dot_from f 0 q k) (scale_of f d)) ks in
      length-mix_values (softmax_inplace f scores) vs (replicate d 0) ∙ length-replicate d 0

  length-dense_heads :
      (args : AttentionArgs) (query : List ℕ) (keys values : ℕ → ℕ → List ℕ) (g qh left : ℕ)
      → length (dense_heads f args query keys values g qh left) ≡ left * args.head_dim
  length-dense_heads args query keys values g qh zero = omega arith
  length-dense_heads args query keys values g qh (suc left) =
      let context = args.query_position + 1 in
      let o =
        dense_head f args.head_dim (cut query (qh * args.head_dim) args.head_dim)
          (tabulate (keys (qh / g)) 0 context) (tabulate (values (qh / g)) 0 context) in
      let size : length o ≡ args.head_dim = length-dense_head args.head_dim _ _ _ in
      omega (
        arith,
        size,
        length-append o (dense_heads f args query keys values g (suc qh) left),
        length-dense_heads args query keys values g (suc qh) left,
        suc-mul left args.head_dim,
      )

  -- With a table that reaches the query's position and blocks of the arena in it, and query heads
  -- that can be grouped over the key-value heads, `paged_attention` returns, and its output is as
  -- long as the query.
  pub paged_attention-HasLength :
      (store : KvStore) (args : AttentionArgs) (query : List ℕ)
      → Covers store args
      → Grouped args query
      → Returns
          (HasLength (args.num_query_heads * args.head_dim))
          (paged_attention f store query args (length query))
  paged_attention-HasLength store args query c g =
      rw (paged_attention-dense_attention f store args _ _ (Covers-Caches store args c) query g) (
        returns (
          length-dense_heads args query (stored store args c false) (stored store args c true)
            (args.num_query_heads / args.num_kv_heads) 0 args.num_query_heads))
