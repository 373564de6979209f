-- ===== src/Models/Store/Offsets.antt =====
-- The addresses of the arena (crates/orion-models/src/attention.rs, `slot_offset`): every slot lies
-- inside the arena, and two slots never overlap.
use orion_serve_rs.Prelude.{
  ℕ, ◌+◌, ◌*◌, ◌≤◌, ◌<◌, ◌≡◌, ◌⊎◌, inl, inr, Bool, true, false, arith, length, Bool-cases, ltb,
  ltb→lt, ltb→ge, ◌≢◌,
}
use orion_serve_rs.Models.Store.{KvStore, slot_offset, of_bool}

-- The arena has the size that the constructor gives it.
pub record Sized (s : KvStore) : Type 0 where
  pub size :
      length s.elements
      ≡ s.num_layers * s.num_blocks * 2 * s.block_size * s.num_kv_heads * s.head_dim

-- The place of a vector, in its own fields.
pub record Slot : Type 0 where
  pub layer : ℕ
  pub block : ℕ
  pub slot : ℕ
  pub head : ℕ
  pub is_value : Bool

pub record Fits (s : KvStore) (p : Slot) : Type 0 where
  pub layer_lt : p.layer < s.num_layers
  pub block_lt : p.block < s.num_blocks
  pub slot_lt : p.slot < s.block_size
  pub head_lt : p.head < s.num_kv_heads

abbrev pub offset_of : KvStore → Slot → ℕ
offset_of s p = slot_offset s p.layer p.block p.is_value p.slot p.head

-- The number of a vector in the arena.
abbrev index_of : KvStore → Slot → ℕ
index_of s p =
    (((p.layer * s.num_blocks + p.block) * 2 + of_bool p.is_value) * s.block_size + p.slot)
      * s.num_kv_heads
    + p.head

offset_index : (s : KvStore) (p : Slot) → offset_of s p ≡ index_of s p * s.head_dim
unfolding slot_offset
offset_index s p = grind arith

digit_lt : (a b n m : ℕ) → a < m → b < n → a * n + b < m * n
digit_lt a b n m ha hb = grind arith

digits_equal : (a b a' b' n : ℕ) → b < n → b' < n → a * n + b ≡ a' * n + b' → (a ≡ a') × (b ≡ b')
digits_equal a b a' b' n hb hb' e =
    let up : a < a' → ⊥ = λ lt. absurd (grind (arith, digit_lt a b n a' lt hb)) in
    let down : a' < a → ⊥ = λ lt. absurd (grind (arith, digit_lt a' b' n a lt hb')) in
    let same : a ≡ a' = omega (arith, up, down) in (same, grind (arith, same))

of_bool_lt : (b : Bool) → of_bool b < 2
of_bool_lt true = omega arith
of_bool_lt false = omega arith

of_bool_injective : (b c : Bool) → of_bool b ≡ of_bool c → b ≡ c
of_bool_injective b c e = ground arith

index_lt :
    (s : KvStore) (p : Slot)
    → Fits s p
    → index_of s p < s.num_layers * s.num_blocks * 2 * s.block_size * s.num_kv_heads
index_lt s p f =
    digit_lt _ _ _ _
      (digit_lt _ _ _ _
        (digit_lt _ _ _ _ (digit_lt _ _ _ _ f.layer_lt f.block_lt) (of_bool_lt p.is_value))
        f.slot_lt)
      f.head_lt

index_injective :
    (s : KvStore) (p q : Slot) → Fits s p → Fits s q → index_of s p ≡ index_of s q → p ≡ q
index_injective s p q f g e =
    let (slots, head) = digits_equal _ _ _ _ _ f.head_lt g.head_lt e in
    let (regions, slot) = digits_equal _ _ _ _ _ f.slot_lt g.slot_lt slots in
    let (blocks, kind) =
      digits_equal _ _ _ _ _ (of_bool_lt p.is_value) (of_bool_lt q.is_value) regions in
    let (layer, block) = digits_equal _ _ _ _ _ f.block_lt g.block_lt blocks in
    let value = of_bool_injective p.is_value q.is_value kind in cc

step_le : (i j n : ℕ) → i < j → i * n + n ≤ j * n
step_le i j n h = grind arith

-- A slot within the bounds lies inside the arena.
pub slot_inside :
    (s : KvStore) (p : Slot) → Sized s → Fits s p → offset_of s p + s.head_dim ≤ length s.elements
slot_inside s p sized f =
    omega (arith, offset_index s p, sized.size, step_le _ _ s.head_dim (index_lt s p f))

-- Two different slots do not overlap.
pub slots_apart :
    (s : KvStore) (p q : Slot)
    → Fits s p
    → Fits s q
    → p ≢ q
    → (offset_of s p + s.head_dim ≤ offset_of s q) ⊎ (offset_of s q + s.head_dim ≤ offset_of s p)
slots_apart s p q f g ne = elim (Bool-cases (ltb (index_of s p) (index_of s q))) [
  | inl below ↦
      inl (rw (offset_index s p, offset_index s q) (step_le _ _ s.head_dim (ltb→lt _ _ below)))
  | inr above ↦
      let differ = λ (e : index_of s p ≡ index_of s q). ne (index_injective s p q f g e) in
      let lt : index_of s q < index_of s p = omega (arith, differ, ltb→ge _ _ above) in
      inr (rw (offset_index s p, offset_index s q) (step_le _ _ s.head_dim lt))
]
