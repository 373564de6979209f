-- ===== src/Tokenizer/Text.antt =====
-- Text as Rust's `str` in crates/orion-tokenizer/src/lib.rs: code points with their lengths in UTF-8.
use orion_serve_rs.Prelude.{
  ℕ, ◌+◌, ◌-◌, ◌≤◌, ◌<◌, ◌≡◌, refl, ap, inl, inr, Bool, false, Option, none, some, List, [], ◌∷◌,
  ◌++◌, arith, if◌then◌else◌, ◌==◌, ltb, Bool-cases, append-nil,
}

abbrev pub Text : Type 0
Text = List ℕ

abbrev pub len_utf8 : ℕ → ℕ
len_utf8 c = if ltb c 128 then 1 else (if ltb c 2048 then 2 else (if ltb c 65536 then 3 else 4))

-- `str::len`
abbrev pub byte_len : Text → ℕ
byte_len [] = 0
byte_len (c ∷ t) = len_utf8 c + byte_len t

-- `&text[n..]`, which panics past the end and within a character.
unfoldable pub slice_from : Text → ℕ → Option Text
slice_from [] n = if n == 0 then some [] else none
slice_from (c ∷ t) n =
    let rest = slice_from t (n - len_utf8 c) in
    if n == 0 then some (c ∷ t) else (if ltb n (len_utf8 c) then none else rest)

-- `char::REPLACEMENT_CHARACTER`
abbrev pub replacement : ℕ
replacement = 65533

unfoldable pub ends_with : Text → ℕ → Bool
ends_with [] c = false
ends_with (x ∷ []) c = x == c
ends_with (x ∷ y ∷ t) c = ends_with (y ∷ t) c

abbrev pub keep_front : ℕ → ℕ → Text → Text
keep_front c x [] = if x == c then [] else x ∷ []
keep_front c x (y ∷ t) = x ∷ y ∷ t

-- `trim_end_matches`
unfoldable pub trim_end : Text → ℕ → Text
trim_end [] c = []
trim_end (x ∷ t) c = keep_front c x (trim_end t c)

pub byte_len-append : (s t : Text) → byte_len (s ++ t) ≡ byte_len s + byte_len t
byte_len-append [] t = omega arith
byte_len-append (c ∷ s) t = omega (arith, byte_len-append s t)

pub len_utf8_pos : (c : ℕ) → 0 < len_utf8 c
len_utf8_pos c = ground arith

-- Past a leading part stands the rest.
pub slice_from-append : (s t : Text) → slice_from (s ++ t) (byte_len s) ≡ some t
unfolding slice_from
slice_from-append [] [] = refl
slice_from-append [] (c ∷ t) = refl
slice_from-append (c ∷ s) t =
    let n = len_utf8 c + byte_len s in
    let short : n - len_utf8 c ≡ byte_len s = omega arith in
    ground (arith, len_utf8_pos c, slice_from-append s t, ap (slice_from (s ++ t)) short)

-- A text with nothing of length 0 is empty.
pub byte_len_zero : (t : Text) → byte_len t ≡ 0 → t ≡ []
byte_len_zero [] e = refl
byte_len_zero (c ∷ t) e = absurd (omega (arith, len_utf8_pos c))

-- A text that ends in no `c` is kept whole.
pub trim_end_keeps : (t : Text) (c : ℕ) → ends_with t c ≡ false → trim_end t c ≡ t
unfolding trim_end ends_with
trim_end_keeps [] c e = refl
trim_end_keeps (x ∷ []) c e = ground arith
trim_end_keeps (x ∷ y ∷ t) c e = rw (trim_end_keeps (y ∷ t) c e) refl

keep_front-ends_with :
    (c x : ℕ) (t : Text) → ends_with t c ≡ false → ends_with (keep_front c x t) c ≡ false
unfolding ends_with
keep_front-ends_with c x [] e = ground arith
keep_front-ends_with c x (y ∷ t) e = e

pub trim_end-ends_with : (t : Text) (c : ℕ) → ends_with (trim_end t c) c ≡ false
unfolding trim_end ends_with
trim_end-ends_with [] c = refl
trim_end-ends_with (x ∷ t) c = keep_front-ends_with c x (trim_end t c) (trim_end-ends_with t c)

keep_front_part : (c x : ℕ) (t r : Text) → (s : Text) × (x ∷ t ++ r ≡ keep_front c x t ++ s)
keep_front_part c x [] r = elim (Bool-cases (x == c)) [
  | inl same ↦ (x ∷ r, rw same refl)
  | inr other ↦ (r, rw other refl)
]
keep_front_part c x (y ∷ t) r = (r, refl)

-- What is trimmed stood at the end.
pub trim_end_part : (t : Text) (c : ℕ) → (s : Text) × (t ≡ trim_end t c ++ s)
unfolding trim_end
trim_end_part [] c = ([], refl)
trim_end_part (x ∷ t) c =
    let (r, e) = trim_end_part t c in
    let (s, e') = keep_front_part c x (trim_end t c) r in (s, rw (ap (λ u. x ∷ u) e) e')

-- The end of a concatenation is that of its second part, unless that is empty.
pub ends_with-append :
    (s : Text) (x : ℕ) (t : Text) (c : ℕ) → ends_with (s ++ x ∷ t) c ≡ ends_with (x ∷ t) c
unfolding ends_with
ends_with-append [] x t c = refl
ends_with-append (y ∷ []) x t c = refl
ends_with-append (y ∷ z ∷ s) x t c = ends_with-append (z ∷ s) x t c

-- Of two leading parts of a text the shorter leads the longer.
pub shorter_part :
    (d r s t : Text)
    → d ++ r ≡ s ++ t
    → byte_len d ≤ byte_len s
    → (u : Text) × (s ≡ d ++ u) × (r ≡ u ++ t)
shorter_part [] r s t e le = (s, refl, e)
shorter_part (c ∷ d) r [] t e le = absurd (omega (arith, len_utf8_pos c))
shorter_part (c ∷ d) r (x ∷ s) t e le =
    let same : c ≡ x = cc in
    let tails : d ++ r ≡ s ++ t = cc in
    let fewer : byte_len d ≤ byte_len s = omega (arith, ap len_utf8 same) in
    let (u, e1, e2) = shorter_part d r s t tails fewer in (u, cc, e2)

-- Neither part of a concatenation ends in `c`, nor does the whole.
pub ends_with_both :
    (s t : Text) (c : ℕ)
    → ends_with s c ≡ false
    → ends_with t c ≡ false
    → ends_with (s ++ t) c ≡ false
ends_with_both s [] c hs ht = rw (append-nil s) hs
ends_with_both s (x ∷ t) c hs ht = rw (ends_with-append s x t c) ht

-- The second part ends as the whole does.
pub ends_with_second : (s t : Text) (c : ℕ) → ends_with (s ++ t) c ≡ false → ends_with t c ≡ false
unfolding ends_with
ends_with_second s [] c h = refl
ends_with_second s (x ∷ t) c h = rw (ends_with-append s x t c) at h

keep_front_single : (c x : ℕ) (t : Text) → (x == c) ≡ false → keep_front c x t ≡ x ∷ t
keep_front_single c x [] e = rw e refl
keep_front_single c x (y ∷ t) e = refl

-- Trimming reaches only the part after one that ends in no `c`.
pub trim_end-append :
    (s t : Text) (c : ℕ) → ends_with s c ≡ false → trim_end (s ++ t) c ≡ s ++ trim_end t c
unfolding trim_end ends_with
trim_end-append [] t c e = refl
trim_end-append (x ∷ []) t c e = keep_front_single c x (trim_end t c) e
trim_end-append (x ∷ y ∷ s) t c e = rw (trim_end-append (y ∷ s) t c e) refl
