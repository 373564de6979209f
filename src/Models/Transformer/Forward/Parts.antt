-- ===== src/Models/Transformer/Forward/Parts.antt =====
-- The steps of the forward pass (crates/orion-models/src/transformer.rs, `forward` and `embed`) before
-- and after the blocks.
use native.Mathlib.Nat.{suc-mul, mod-lt}
use orion_serve_rs.Prelude.{
  ℕ, suc, ◌+◌, ◌*◌, ◌≤◌, ◌<◌, ◌≡◌, refl, ap, List, [], ◌∷◌, arith, ◌==◌, length, All, length-append,
}
use orion_serve_rs.Core.Batch.{sum}
use orion_serve_rs.Models.Run.{Returns, returns, Returns-bind, Returns-ok_or, Returns-pass, agrees}
use orion_serve_rs.Models.Tensor.{Matrix, row}
use orion_serve_rs.Models.Tensor.Shape.{Shaped, HasLength, row-HasLength}
use orion_serve_rs.Models.Attention.Total.{locate_inside}
use orion_serve_rs.Models.Transformer.{TransformerModel, embed_rows, embed}
use orion_serve_rs.Models.Transformer.Layer.{ModelFits, RowsFit, PlaceFits}
use orion_serve_rs.Models.Transformer.Forward.{slots_of, last_rows_from, gather}

embed_rows-HasLength :
    (n k : ℕ) (table : Matrix) (tokens : List ℕ)
    → Shaped n k table
    → All (λ t. t < n) tokens
    → Returns (HasLength (length tokens * k)) (embed_rows table k tokens)
embed_rows-HasLength n k table [] s h = returns (omega arith)
embed_rows-HasLength n k table (t ∷ ts) s h =
    Returns-ok_or (row table t) _ _ (row-HasLength n k table t s h.0) λ r l.
      Returns-pass _ _ (agrees l) (
        Returns-bind (embed_rows-HasLength n k table ts s h.1)
          λ rest lr. returns (omega (arith, l, lr, length-append r rest, suc-mul (length ts) k)))

pub embed-Shaped :
    (m : TransformerModel) (n : ℕ) (tokens : List ℕ)
    → Shaped n m.meta.hidden_size m.weights.embed_tokens
    → All (λ t. t < n) tokens
    → Returns (Shaped (length tokens) m.meta.hidden_size) (embed m tokens)
unfolding embed
embed-Shaped m n tokens s h =
    Returns-bind (embed_rows-HasLength n m.meta.hidden_size m.weights.embed_tokens tokens s h)
      λ xs l. returns (record { size = l; rows = refl; cols = refl })

pub gather-HasLength :
    (n k : ℕ) (hidden : Matrix) (rows : List ℕ)
    → Shaped n k hidden
    → All (λ i. i < n) rows
    → Returns (HasLength (length rows * k)) (gather hidden k rows)
gather-HasLength n k hidden [] s h = returns (omega arith)
gather-HasLength n k hidden (i ∷ rows) s h =
    Returns-ok_or (row hidden i) _ _ (row-HasLength n k hidden i s h.0) λ src l.
      Returns-pass _ _ (agrees l) (
        Returns-bind (gather-HasLength n k hidden rows s h.1) λ rest lr.
          returns (omega (arith, l, lr, length-append src rest, suc-mul (length rows) k)))

-- One row for each sequence, all of them rows of the batch.
abbrev pub LastRows : List ℕ → ℕ → List ℕ → Type 0
LastRows counts total rows = (length rows ≡ length counts) × All (λ i. i < total) rows

pub last_rows_from-LastRows :
    (total cursor : ℕ) (counts : List ℕ)
    → All (λ n. 0 < n) counts
    → cursor + sum counts ≤ total
    → Returns (LastRows counts total) (last_rows_from cursor counts)
last_rows_from-LastRows total cursor [] pos h = returns (refl, tt)
last_rows_from-LastRows total cursor (n ∷ counts) pos h =
    Returns-pass (n == 0) _ (ground (arith, pos.0)) (
      Returns-bind (last_rows_from-LastRows total (cursor + n) counts pos.1 (omega arith))
        λ rows r. returns (ap suc r.0, (omega (arith, pos.0), r.1)))

module _ (m : TransformerModel) (fits : ModelFits m) (blocks : ℕ) where
  pub slots_of-PlaceFits :
      (tables : List (List ℕ)) (seqs positions : List ℕ)
      → RowsFit m blocks tables seqs positions
      → Returns (All (PlaceFits m blocks)) (slots_of tables m.block_size seqs positions)
  slots_of-PlaceFits tables [] [] r = returns tt
  slots_of-PlaceFits tables (seq ∷ seqs) [] r = elim r [ ]
  slots_of-PlaceFits tables [] (pos ∷ positions) r = elim r [ ]
  slots_of-PlaceFits tables (seq ∷ seqs) (pos ∷ positions) r =
      let ((table, found, reaches, known, _), rest) = r in
      let (b, is, low) =
        locate_inside (λ x. x < blocks) table pos m.block_size fits.block_size reaches known in
      rw (found, is)
        (Returns-bind (slots_of-PlaceFits tables seqs positions rest)
          λ more p. returns ((low, mod-lt pos fits.block_size), p))
