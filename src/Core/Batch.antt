-- ===== src/Core/Batch.antt =====
-- crates/orion-core/src/traits.rs: the flat batch of one forward pass, and the check of its arrays.
use orion_serve_rs.Prelude.{ℕ, ◌+◌, Bool, not, ◌&&◌, List, [], ◌∷◌, if◌then◌else◌, ◌==◌, length}
use orion_serve_rs.Core.Error.{Result, ok, err, internal}

pub record ForwardBatch : Type 0 where
  pub tokens : List ℕ
  pub positions : List ℕ
  pub sequence_ids : List ℕ
  pub slot_token_counts : List ℕ
  pub context_lens : List ℕ
  pub block_tables : List (List ℕ)
  pub has_prefill : Bool

abbrev pub sum : List ℕ → ℕ
sum [] = 0
sum (n ∷ ns) = n + sum ns

unfoldable pub validate : ForwardBatch → Result (Unit {0})
validate b =
    let n = length b.sequence_ids in
    if not (
      (length b.slot_token_counts == n)
      && (length b.context_lens == n)
      && (length b.block_tables == n))
    then err (internal "ForwardBatch arrays disagree")
    else (if not (length b.positions == length b.tokens)
        then err (internal "ForwardBatch has other positions than tokens")
        else (if not (sum b.slot_token_counts == length b.tokens)
            then err (internal "ForwardBatch slot token counts do not sum to the tokens")
            else ok tt))
