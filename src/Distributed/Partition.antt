-- ===== src/Distributed/Partition.antt =====
-- The shards of a dimension (crates/orion-distributed/src/lib.rs): what each rank owns.
use native.Mathlib.Nat.{
  div-mul-le_self, lt-div-mul-add, lt_of_mul-lt-mul_right, div-add-mod', suc-mul, mul_comm,
}
use orion_serve_rs.Prelude.{
  ℕ, suc, ◌+◌, ◌*◌, ◌/◌, ◌%◌, ◌≤◌, ◌<◌, ◌≡◌, sym, ap, ◌∙◌, inl, inr, arith, ◌==◌, ==_iff,
  Bool-cases,
}
use orion_serve_rs.Core.Error.{ok}
use orion_serve_rs.Distributed.Layout.{Rank, Shard, is_multiple_of, shard_dimension}

-- The rank owns the position.
abbrev pub Owns : ℕ → ℕ → Rank → Type 0
Owns total i r =
    (s : Shard) × (shard_dimension total r ≡ ok s) × (s.start ≤ i) × (i < s.start + s.len)

abbrev pub rank_of : ℕ → ℕ → Rank
rank_of index world_size = record { index = index; world_size = world_size }

-- A shard is the quotient, at a multiple of it.
pub shard_dimension_even :
    (total w index : ℕ)
    → (total % suc w) ≡ 0
    → shard_dimension total (rank_of index (suc w))
      ≡ ok (record { start = index * (total / suc w); len = total / suc w })
unfolding shard_dimension
shard_dimension_even total w index even = ground (arith, even)

-- A shard of a rank that `Rank::new` makes: all ranks together have the whole.
pub shard_dimension_fields :
    (total index w : ℕ) (s : Shard)
    → shard_dimension total (rank_of index (suc w)) ≡ ok s
    → (s.len * suc w ≡ total) × (s.start ≡ index * s.len)
unfolding shard_dimension
shard_dimension_fields total index w s e = elim (Bool-cases (is_multiple_of total (suc w))) [
  | inl even ↦
      let s_is : s ≡ record { start = index * (total / suc w); len = total / suc w } =
        ground (arith, e, even) in
      let none_left : total % suc w ≡ 0 = (==_iff (total % suc w) 0).0 even in
      (
        ap (λ x. x.len * suc w) s_is ∙ omega (arith, div-add-mod' total (suc w), none_left),
        ap (λ x. x.start) s_is ∙ ap (λ x. index * x.len) (sym s_is),
      )
  | inr odd ↦ absurd (ground (arith, e, odd))
]

-- Multiples of a length: a position stands in one only.
one_multiple :
    (len i r r' : ℕ) → r * len ≤ i → i < r * len + len → r' * len ≤ i → i < r' * len + len → r ≡ r'
one_multiple len i r r' a b a' b' = omega (
  arith,
  lt_of_mul-lt-mul_right len {m = r} {n = suc r'} (omega (arith, suc-mul r' len, a, b')),
  lt_of_mul-lt-mul_right len {m = r'} {n = suc r} (omega (arith, suc-mul r len, a', b)),
)

-- For a dimension that the number of ranks divides, each position of it is in the shard of exactly
-- one rank.
pub shard_dimension_partition :
    (total w i : ℕ)
    → (total % suc w) ≡ 0
    → i < total
    → (r : ℕ) × (r < suc w)
      × Owns total i (rank_of r (suc w))
      × ((r' : ℕ) → Owns total i (rank_of r' (suc w)) → r ≡ r')
shard_dimension_partition total w i even inside =
    let len = total / suc w in
    let all : len * suc w ≡ total = omega (arith, div-add-mod' total (suc w), even) in
    let pos : 0 < len = elim (Bool-cases (len == 0)) [
      | inl none_each ↦
          absurd (omega (arith, all, inside, ap (λ n. n * suc w) ((==_iff len 0).0 none_each)))
      | inr some_each ↦ ground (arith, some_each)
    ] in
    let r = i / len in
    let below : r * len ≤ i = div-mul-le_self i len in
    let above : i < r * len + len = lt-div-mul-add pos in
    (
      r,
      lt_of_mul-lt-mul_right len {m = r} {n = suc w}
          (omega (arith, below, inside, all, mul_comm len (suc w))),
      (_, shard_dimension_even total w r even, below, above),
      λ r' (s, e, below', above').
          let s_is : s ≡ record { start = r' * len; len = len } =
            ground (arith, e, shard_dimension_even total w r' even) in
          let start_is : s.start ≡ r' * len = ap (λ x. x.start) s_is in
          let len_is : s.len ≡ len = ap (λ x. x.len) s_is in
          one_multiple len i r r' below above (omega (arith, below', start_is))
            (omega (arith, above', start_is, len_is)),
    )
