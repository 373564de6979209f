-- ===== src/Tokenizer/Decoder.antt =====
-- crates/orion-tokenizer/src/lib.rs: IncrementalDecoder. `none` is a panic on a slice; decoding is the
-- Hugging Face library's.
pub mod Stream
pub mod Whole
use orion_serve_rs.Prelude.{
  ℕ, ◌+◌, ◌-◌, ◌*◌, Bool, true, false, not, ◌&&◌, Option, none, some, List, [], ◌∷◌, ◌++◌, map,
  if◌then◌else◌, ◌==◌, ltb, leb, length, take, drop,
}
use orion_serve_rs.Core.Error.{EngineError, Result, ok, err}
use orion_serve_rs.Tokenizer.Text.{
  Text, len_utf8, byte_len, slice_from, replacement, ends_with, trim_end,
}

pub record IncrementalDecoder : Type 0 where
  pub tokens : List ℕ
  pub emitted : Text
  pub window : ℕ
  pub window_start : ℕ
  pub window_emitted : ℕ
  pub skip_special_tokens : Bool

abbrev pub default_window : ℕ
default_window = 16

unfoldable pub new : Bool → IncrementalDecoder
new skip = record {
  tokens = [];
  emitted = [];
  window = default_window;
  window_start = 0;
  window_emitted = 0;
  skip_special_tokens = skip;
}

-- `window.max(1)`
unfoldable pub with_window : IncrementalDecoder → ℕ → IncrementalDecoder
with_window d window = record d { window = if window == 0 then 1 else window }

abbrev pub num_tokens : IncrementalDecoder → ℕ
num_tokens d = length d.tokens

-- `&self.tokens[start..]`
abbrev pub window_tokens : IncrementalDecoder → List ℕ
window_tokens d = drop d.window_start d.tokens

-- What a method ends with: `none` where it panics.
abbrev pub Outcome : Type 0
Outcome = Option (Result Text × IncrementalDecoder)

abbrev pub fail : EngineError → IncrementalDecoder → Outcome
fail e d = some (err e, d)

-- The window moves on past a clean part whose text is all emitted.
unfoldable pub rebase : IncrementalDecoder → ℕ → Text → IncrementalDecoder
rebase d new_start dropped =
    if not (ends_with dropped replacement) && leb (byte_len dropped) d.window_emitted
    then record d { window_emitted = d.window_emitted - byte_len dropped; window_start = new_start }
    else d

abbrev pub and_then : Result Text → IncrementalDecoder → (Text → Outcome) → Outcome
and_then (err e) d rest = fail e d
and_then (ok t) d rest = rest t

-- The text past what is emitted, without a character that may still be completed.
abbrev pub settled : Text → Text
settled delta = if ends_with delta replacement then trim_end delta replacement else delta

abbrev pub emit : IncrementalDecoder → Text → Outcome
emit d [] = some (ok [], d)
emit d (c ∷ t) = some (
  ok (c ∷ t),
  record d { window_emitted = d.window_emitted + byte_len (c ∷ t); emitted = d.emitted ++ c ∷ t },
)

abbrev pub emit_delta : IncrementalDecoder → Option Text → Outcome
emit_delta d none = none
emit_delta d (some delta) = emit d (settled delta)

unfoldable pub emit_new : IncrementalDecoder → Text → Outcome
emit_new d window_text =
    if leb (byte_len window_text) d.window_emitted
    then some (ok [], d)
    else emit_delta d (slice_from window_text d.window_emitted)

-- The bytes of the characters that two texts begin with.
unfoldable pub common_bytes : Text → Text → ℕ
common_bytes [] t = 0
common_bytes (c ∷ s) [] = 0
common_bytes (c ∷ s) (x ∷ t) =
    let rest = common_bytes s t in if c == x then len_utf8 c + rest else 0

abbrev pub emit_tail : IncrementalDecoder → Text → Option Text → Outcome
emit_tail d full none = none
emit_tail d full (some tail) =
    some (ok tail, record d { emitted = full; window_emitted = d.window_emitted + byte_len tail })

unfoldable pub flush : IncrementalDecoder → Text → Outcome
flush d full =
    let common = common_bytes full d.emitted in
    if leb (byte_len full) common
    then some (ok [], d)
    else emit_tail d full (slice_from full common)

module _ (decode : List ℕ → Bool → Result Text) where
  -- The second half of `push`, from the window as it then stands.
  unfoldable pub push_window : IncrementalDecoder → Outcome
  unfolding emit_new
  push_window d = and_then (decode (window_tokens d) d.skip_special_tokens) d (emit_new d)

  unfoldable pub push_token : IncrementalDecoder → Outcome
  unfolding rebase push_window
  push_token d =
      if ltb (d.window * 2) (length d.tokens - d.window_start)
      then (let new_start = length d.tokens - d.window in
          and_then
            (decode (take (new_start - d.window_start) (drop d.window_start d.tokens))
              d.skip_special_tokens)
            d (λ dropped. push_window (rebase d new_start dropped)))
      else push_window d

  unfoldable pub push : IncrementalDecoder → ℕ → Outcome
  unfolding push_token
  push d token = push_token (record d { tokens = d.tokens ++ token ∷ [] })

  unfoldable pub finish : IncrementalDecoder → Outcome
  unfolding flush
  finish d = and_then (decode d.tokens d.skip_special_tokens) d (flush d)

  abbrev pub after_piece : Outcome → (IncrementalDecoder → Option Text) → Option Text
  after_piece none rest = none
  after_piece (some (err e, d)) rest = none
  after_piece (some (ok piece, d)) rest = elim (rest d) [ none ↦ none | some t ↦ some (piece ++ t) ]

  -- What a caller reads from a stream: the pieces of its tokens, and the last one.
  unfoldable pub stream : IncrementalDecoder → List ℕ → Option Text
  unfolding push finish
  stream d [] = after_piece (finish d) (λ _. some [])
  stream d (t ∷ ts) = after_piece (push d t) (λ d'. stream d' ts)
