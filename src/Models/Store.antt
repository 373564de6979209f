-- ===== src/Models/Store.antt =====
-- crates/orion-models/src/attention.rs: the flat arena of keys and values, `KvStore`.
pub mod Offsets
pub mod Access
use orion_serve_rs.Prelude.{
  ℕ, ◌+◌, ◌*◌, ◌≡◌, Bool, true, false, not, List, if◌then◌else◌, ◌==◌, ltb, leb, length, replicate,
}
use orion_serve_rs.Core.Error.{internal}
use orion_serve_rs.Models.Run.{Run, returned, failed, slice, copy_from_slice, ◌>>=◌, ◌>>◌}

-- The elements are bits of `f32`.
pub record KvStore : Type 0 where
  pub elements : List ℕ
  pub num_layers : ℕ
  pub num_blocks : ℕ
  pub block_size : ℕ
  pub num_kv_heads : ℕ
  pub head_dim : ℕ

unfoldable pub new : ℕ → ℕ → ℕ → ℕ → ℕ → KvStore
new num_layers num_blocks block_size num_kv_heads head_dim =
    let total = num_layers * num_blocks * 2 * block_size * num_kv_heads * head_dim in
    record {
      elements = replicate total 0;
      num_layers = num_layers;
      num_blocks = num_blocks;
      block_size = block_size;
      num_kv_heads = num_kv_heads;
      head_dim = head_dim;
    }

abbrev pub len : KvStore → ℕ
len s = length s.elements

abbrev pub is_empty : KvStore → Bool
is_empty s = length s.elements == 0

unfoldable pub block_stride : KvStore → ℕ
block_stride s = s.block_size * s.num_kv_heads * s.head_dim

-- `usize::from(is_value)`
abbrev pub of_bool : Bool → ℕ
of_bool b = if b then 1 else 0

unfoldable pub region_offset : KvStore → ℕ → ℕ → Bool → ℕ
unfolding block_stride
region_offset s layer block is_value =
    let per_block = 2 * block_stride s in
    let per_layer = s.num_blocks * per_block in
    layer * per_layer + block * per_block + of_bool is_value * block_stride s

unfoldable pub slot_offset : KvStore → ℕ → ℕ → Bool → ℕ → ℕ → ℕ
unfolding region_offset
slot_offset s layer block is_value slot head =
    region_offset s layer block is_value + (slot * s.num_kv_heads + head) * s.head_dim

unfoldable pub check_bounds : KvStore → ℕ → ℕ → ℕ → ℕ → ℕ → Run (Unit {0})
check_bounds s layer block slot head vec_len =
    if leb s.num_layers layer
    then failed (internal "layer out of range")
    else (if leb s.num_blocks block
        then failed (internal "block out of range")
        else (if leb s.block_size slot
            then failed (internal "slot out of range")
            else (if leb s.num_kv_heads head
                then failed (internal "kv head out of range")
                else (if not (vec_len == s.head_dim)
                    then failed (internal "vector length does not match head_dim")
                    else returned tt))))

-- The store after the write.
unfoldable pub write : KvStore → ℕ → ℕ → ℕ → ℕ → Bool → List ℕ → Run KvStore
unfolding check_bounds slot_offset
write s layer block slot head is_value vector =
    check_bounds s layer block slot head (length vector)
    >> copy_from_slice s.elements (slot_offset s layer block is_value slot head) vector
    >>= λ written. returned (record s { elements = written })

unfoldable pub read : KvStore → ℕ → ℕ → ℕ → ℕ → Bool → Run (List ℕ)
unfolding check_bounds slot_offset
read s layer block slot head is_value =
    let off = slot_offset s layer block is_value slot head in
    check_bounds s layer block slot head s.head_dim >> slice s.elements off (off + s.head_dim)
