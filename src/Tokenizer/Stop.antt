-- ===== src/Tokenizer/Stop.antt =====
-- crates/orion-tokenizer/src/lib.rs: StopSequenceMatcher.
pub mod Occurs
pub mod Detects
pub mod Watch
pub mod Truncate
use orion_serve_rs.Prelude.{
  ℕ, zero, suc, ◌+◌, ◌-◌, ◌*◌, Bool, true, false, ◌||◌, Option, none, some, List, [], ◌∷◌, ◌++◌,
  if◌then◌else◌, ◌==◌, ltb, min,
}
use orion_serve_rs.Tokenizer.Text.{Text, len_utf8, byte_len, slice_from}

abbrev pub starts_with : Text → Text → Bool
starts_with t [] = true
starts_with [] (x ∷ s) = false
starts_with (c ∷ t) (x ∷ s) = if c == x then starts_with t s else false

unfoldable pub contains : Text → Text → Bool
contains [] s = starts_with [] s
contains (c ∷ t) s = starts_with (c ∷ t) s || contains t s

unfoldable pub is_char_boundary : Text → ℕ → Bool
is_char_boundary [] n = n == 0
is_char_boundary (c ∷ t) n =
    let rest = is_char_boundary t (n - len_utf8 c) in
    if n == 0 then true else (if ltb n (len_utf8 c) then false else rest)

-- `&text[..n]`, which panics past the end and within a character.
unfoldable pub slice_to : Text → ℕ → Option Text
slice_to [] n = if n == 0 then some [] else none
slice_to (c ∷ t) n =
    let rest = slice_to t (n - len_utf8 c) in
    if n == 0
    then some []
    else (if ltb n (len_utf8 c) then none else elim rest [ none ↦ none | some s ↦ some (c ∷ s) ])

pub record StopSequenceMatcher : Type 0 where
  pub sequences : List Text
  pub max_len : ℕ
  pub buffer : Text

abbrev max_of : ℕ → ℕ → ℕ
max_of a b = if ltb a b then b else a

-- `sequences.iter().map(|s| s.len()).max().unwrap_or(0)`
unfoldable pub longest : List Text → ℕ
longest [] = 0
longest (s ∷ ss) = max_of (byte_len s) (longest ss)

unfoldable pub new : List Text → StopSequenceMatcher
unfolding longest
new sequences = record { sequences = sequences; max_len = longest sequences; buffer = [] }

abbrev pub is_empty : {A : Type 0} → List A → Bool
is_empty [] = true
is_empty (x ∷ xs) = false

-- `self.sequences.iter().find(|s| self.buffer.contains(s.as_str()))`
unfoldable pub find_in : List Text → Text → Option Text
unfolding contains
find_in [] t = none
find_in (s ∷ ss) t = if contains t s then some s else find_in ss t

-- `(0..=n).rev().find(|&i| t.is_char_boundary(i)).unwrap_or(0)`
unfoldable pub last_boundary : Text → ℕ → ℕ
unfolding is_char_boundary
last_boundary t zero = 0
last_boundary t (suc n) = if is_char_boundary t (suc n) then suc n else last_boundary t n

-- The buffer after the cut; `none` where the slice panics.
unfoldable pub shorten : ℕ → Text → Option Text
unfolding last_boundary
shorten max_len buffer =
    if ltb (max_len * 2) (byte_len buffer)
    then slice_from buffer (last_boundary buffer (byte_len buffer - max_len))
    else some buffer

abbrev pub keep :
    StopSequenceMatcher → Option Text → Option Text → Option (Option Text × StopSequenceMatcher)
keep m found none = none
keep m found (some buffer) = some (found, record m { buffer = buffer })

unfoldable pub push : StopSequenceMatcher → Text → Option (Option Text × StopSequenceMatcher)
unfolding find_in shorten
push m text =
    if is_empty m.sequences || is_empty text
    then some (none, m)
    else (let buffer = m.buffer ++ text in
        keep m (find_in m.sequences buffer) (shorten m.max_len buffer))

unfoldable pub find : Text → Text → Option ℕ
find [] s = if starts_with [] s then some 0 else none
find (c ∷ t) s =
    let rest = find t s in
    if starts_with (c ∷ t) s
    then some 0
    else elim rest [ none ↦ none | some n ↦ some (len_utf8 c + n) ]

abbrev pub earlier : ℕ → Option ℕ → ℕ
earlier cut none = cut
earlier cut (some n) = min cut n

unfoldable pub cut_at : List Text → Text → ℕ → ℕ
unfolding find
cut_at [] t cut = cut
cut_at (s ∷ ss) t cut = cut_at ss t (earlier cut (find t s))

-- `none` where the slice panics.
unfoldable pub truncate_at_stop : StopSequenceMatcher → Text → Option Text
unfolding cut_at slice_to
truncate_at_stop m t = slice_to t (cut_at m.sequences t (byte_len t))
