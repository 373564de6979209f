-- ===== src/Core/Forward.antt =====
-- crates/orion-core/src/traits.rs: ForwardOutput, what a forward pass of the model returns.
use orion_serve_rs.Prelude.{
  ℕ, ◌+◌, ◌-◌, ◌*◌, Option, none, some, List, if◌then◌else◌, ltb, leb, length, take, drop,
}
use orion_serve_rs.Scheduler.Output.{u64_mod}

-- The logits are bits of `f32`, row after row.
pub record ForwardOutput : Type 0 where
  pub logits : List ℕ
  pub vocab_size : ℕ
  pub sequence_ids : List ℕ

abbrev pub num_sequences : ForwardOutput → ℕ
num_sequences out = length out.sequence_ids

-- `self.logits.get(start..end)`
abbrev pub get_range : List ℕ → ℕ → ℕ → Option (List ℕ)
get_range xs start end =
    if ltb end start
    then none
    else (if ltb (length xs) end then none else some (take (end - start) (drop start xs)))

-- The product and the sum are checked on 64 bits.
unfoldable pub row : ForwardOutput → ℕ → Option (List ℕ)
row out i =
    let start = i * out.vocab_size in
    let end = start + out.vocab_size in
    if leb u64_mod start
    then none
    else (if leb u64_mod end then none else get_range out.logits start end)
