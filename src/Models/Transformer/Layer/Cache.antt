-- ===== src/Models/Transformer/Layer/Cache.antt =====
-- The writes of one block to the cache (crates/orion-models/src/transformer.rs, `layer_forward`): they
-- succeed, and the arena keeps its shape.
use orion_serve_rs.Prelude.{
  ℕ, zero, suc, ◌+◌, ◌*◌, ◌≤◌, ◌<◌, ◌≡◌, sym, ◌∙◌, subst, Bool, true, false, List, [], ◌∷◌, arith,
  length, All, length-overwrite,
}
use orion_serve_rs.Models.Run.{Returns, returns, Returns-bind}
use orion_serve_rs.Models.Store.{KvStore, write}
use orion_serve_rs.Models.Store.Offsets.{Slot, Fits, offset_of}
use orion_serve_rs.Models.Store.Access.{write_at-Fits}
use orion_serve_rs.Models.Tensor.{Matrix}
use orion_serve_rs.Models.Tensor.Shape.{Shaped, slice-HasLength, row-HasLength, row_inside}
use orion_serve_rs.Models.Transformer.{TransformerModel, PhysicalSlot, write_heads, write_rows}
use orion_serve_rs.Models.Transformer.Layer.{StoreFits, PlaceFits, kv_dim}

module _ (m : TransformerModel) (blocks layer : ℕ) (inside : layer < m.meta.num_layers) where
  write-StoreFits :
      (kv : KvStore) (place : PhysicalSlot) (h : ℕ) (is_value : Bool) (vec : List ℕ)
      → StoreFits m blocks kv
      → PlaceFits m blocks place
      → h < m.meta.num_kv_heads
      → length vec ≡ m.meta.head_dim
      → Returns (StoreFits m blocks) (write kv layer place.0 place.1 h is_value vec)
  write-StoreFits kv (block, slot) h is_value vec s p l e =
      let at : Slot = record {
        layer = layer;
        block = block;
        slot = slot;
        head = h;
        is_value = is_value;
      } in
      let fits : Fits kv at = record {
        layer_lt = omega (arith, s.num_layers);
        block_lt = omega (arith, s.num_blocks, p.0);
        slot_lt = omega (arith, s.block_size, p.1);
        head_lt = omega (arith, s.num_kv_heads);
      } in
      subst (Returns (StoreFits m blocks))
        (sym (write_at-Fits kv at vec s.sized fits (e ∙ sym s.head_dim)))
        (returns (record {
          sized = record {
            size = length-overwrite kv.elements (offset_of kv at) vec ∙ s.sized.size;
          };
          num_layers = s.num_layers;
          num_blocks = s.num_blocks;
          block_size = s.block_size;
          num_kv_heads = s.num_kv_heads;
          head_dim = s.head_dim;
        }))

  head_inside :
      (xs : List ℕ) (h left : ℕ)
      → length xs ≡ kv_dim m.meta
      → h + suc left ≡ m.meta.num_kv_heads
      → h * m.meta.head_dim + m.meta.head_dim ≤ length xs
  head_inside xs h left l e =
      rw l (row_inside h m.meta.head_dim m.meta.num_kv_heads (omega (arith, e)))

  write_heads-StoreFits :
      (kv : KvStore) (place : PhysicalSlot) (krow vrow : List ℕ) (h left : ℕ)
      → StoreFits m blocks kv
      → PlaceFits m blocks place
      → length krow ≡ kv_dim m.meta
      → length vrow ≡ kv_dim m.meta
      → h + left ≡ m.meta.num_kv_heads
      → Returns (StoreFits m blocks) (write_heads kv layer place krow vrow m.meta.head_dim h left)
  write_heads-StoreFits kv place krow vrow h zero s p lk lv e = returns s
  write_heads-StoreFits kv place krow vrow h (suc left) s p lk lv e =
      let low : h < m.meta.num_kv_heads = omega (arith, e) in
      Returns-bind (slice-HasLength krow _ m.meta.head_dim (head_inside krow h left lk e)) λ key l.
        Returns-bind (write-StoreFits kv place h false key s p low l) λ kv₁ s₁.
          Returns-bind (slice-HasLength vrow _ m.meta.head_dim (head_inside vrow h left lv e))
            λ value l'. Returns-bind (write-StoreFits kv₁ place h true value s₁ p low l') λ kv₂ s₂.
              write_heads-StoreFits kv₂ place krow vrow (suc h) left s₂ p lk lv (omega (arith, e))

  pub write_rows-StoreFits :
      (n : ℕ) (kv : KvStore) (k v : Matrix) (i : ℕ) (slots : List PhysicalSlot)
      → Shaped n (kv_dim m.meta) k
      → Shaped n (kv_dim m.meta) v
      → StoreFits m blocks kv
      → All (PlaceFits m blocks) slots
      → i + length slots ≤ n
      → Returns (StoreFits m blocks) (write_rows m.meta kv layer k v i slots)
  write_rows-StoreFits n kv k v i [] sk sv s p l = returns s
  write_rows-StoreFits n kv k v i (place ∷ slots) sk sv s p l =
      Returns-bind (row-HasLength n (kv_dim m.meta) k i sk (omega arith)) λ krow lk.
        Returns-bind (row-HasLength n (kv_dim m.meta) v i sv (omega arith)) λ vrow lv.
          Returns-bind
            (write_heads-StoreFits kv place krow vrow 0 m.meta.num_kv_heads s p.0 lk lv
              (omega arith))
            λ kv' s'. write_rows-StoreFits n kv' k v (suc i) slots sk sv s' p.1 (omega arith)
