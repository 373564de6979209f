-- ===== src/Tokenizer/Stop/Detects.antt =====
-- The matcher over pieces of text (crates/orion-tokenizer/src/lib.rs) against a search of the whole.
use orion_serve_rs.Prelude.{
  ℕ, zero, suc, ◌-◌, ◌*◌, ◌≤◌, ◌≡◌, refl, sym, ap, ◌∙◌, ◌⊎◌, inl, inr, true, false, Option, none,
  some, List, [], ◌∷◌, ◌++◌, arith, ltb, ltb→lt, All, Bool-cases, if_elim,
}
use orion_serve_rs.Tokenizer.Text.{
  Text, len_utf8, byte_len, slice_from, byte_len-append, slice_from-append,
}
use orion_serve_rs.Tokenizer.Stop.{
  contains, is_char_boundary, last_boundary, shorten, find_in, longest,
}
use orion_serve_rs.Tokenizer.Stop.Occurs.{contains-Occurs, Occurs-contains, Occurs-seam}

boundary_parts :
    (t : Text) (n : ℕ)
    → is_char_boundary t n ≡ true
    → (s : Text) × (r : Text) × (t ≡ s ++ r) × (byte_len s ≡ n)
unfolding is_char_boundary
boundary_parts [] n e = ([], [], refl, ground arith)
boundary_parts (c ∷ t) zero e = ([], c ∷ t, refl, refl)
boundary_parts (c ∷ t) (suc n) e =
    let inside : is_char_boundary t (suc n - len_utf8 c) ≡ true = ground arith in
    let (s, r, e', count) = boundary_parts t (suc n - len_utf8 c) inside in
    (c ∷ s, r, ap (λ x. c ∷ x) e', ground (arith, count))

last_boundary-is_char_boundary :
    (t : Text) (n : ℕ) → (is_char_boundary t (last_boundary t n) ≡ true) × (last_boundary t n ≤ n)
unfolding last_boundary is_char_boundary
last_boundary-is_char_boundary [] zero = (refl, omega arith)
last_boundary-is_char_boundary (c ∷ t) zero = (refl, omega arith)
last_boundary-is_char_boundary t (suc n) =
    let (b, le) = last_boundary-is_char_boundary t n in
    elim (Bool-cases (is_char_boundary t (suc n))) [
      | inl here ↦ rw (here, last_boundary) (here, omega arith)
      | inr not_here ↦ rw (not_here, last_boundary) (b, omega arith)
    ]

-- The buffer keeps an end of the text that a stop sequence fits into.
pub shorten_keeps :
    (max_len : ℕ) (t : Text)
    → (p : Text) × (r : Text) × (shorten max_len t ≡ some r)
      × (t ≡ p ++ r)
      × ((p ≡ []) ⊎ (max_len ≤ byte_len r))
unfolding shorten
shorten_keeps max_len t =
    if_elim
      (λ (o : Option Text).
        (p : Text) × (r : Text) × (o ≡ some r) × (t ≡ p ++ r) × ((p ≡ []) ⊎ (max_len ≤ byte_len r)))
      (ltb (max_len * 2) (byte_len t))
      (λ long.
        let (b, le) = last_boundary-is_char_boundary t (byte_len t - max_len) in
        let (s, r, e, count) = boundary_parts t (last_boundary t (byte_len t - max_len)) b in
        (
          s,
          r,
          ap (λ x. slice_from x (last_boundary t (byte_len t - max_len))) e
              ∙ ap (slice_from (s ++ r)) (sym count)
              ∙ slice_from-append s r,
          e,
          inr (
              omega (
                arith,
                ltb→lt (max_len * 2) (byte_len t) long,
                le,
                count,
                ap byte_len e,
                byte_len-append s r,
              )),
        ))
      (λ _. ([], t, refl, refl, inl refl))

-- No stop sequence stands in the text.
abbrev pub IsFree : List Text → Text → Type 0
IsFree ss t = All (λ s. contains t s ≡ false) ss

pub find_in-none : (ss : List Text) (t : Text) → find_in ss t ≡ none → IsFree ss t
unfolding find_in
find_in-none [] t e = tt
find_in-none (s ∷ ss) t e = elim (Bool-cases (contains t s)) [
  | inl hit ↦ absurd (ground arith)
  | inr miss ↦ (miss, find_in-none ss t (ground arith))
]

pub find_in-some :
    (ss : List Text) (t s : Text)
    → find_in ss t ≡ some s
    → (contains t s ≡ true)
      × ((before : List Text) × (after : List Text) × (ss ≡ before ++ s ∷ after))
unfolding find_in
find_in-some [] t s e = absurd (ground arith)
find_in-some (x ∷ ss) t s e = elim (Bool-cases (contains t x)) [
  | inl hit ↦
      let same : x ≡ s = ground arith in
      (ap (contains t) (sym same) ∙ hit, ([], ss, ap (λ u. u ∷ ss) same))
  | inr miss ↦
      let later : find_in ss t ≡ some s = ground arith in
      let (hit, (before, after, e')) = find_in-some ss t s later in
      (hit, (x ∷ before, after, ap (λ u. x ∷ u) e'))
]

-- Free before a seam and across what is kept of it, free on the whole.
pub IsFree_seam :
    (ss : List Text) (max_len : ℕ) (p kept more : Text)
    → longest ss ≤ max_len
    → (p ≡ []) ⊎ (max_len ≤ byte_len kept)
    → IsFree ss (p ++ kept)
    → IsFree ss (kept ++ more)
    → IsFree ss (p ++ kept ++ more)
unfolding longest
IsFree_seam [] max_len p kept more le long before across = tt
IsFree_seam (s ∷ ss) max_len p kept more le long before across = (
  elim (Bool-cases (contains (p ++ kept ++ more) s)) [
    | inr miss ↦ miss
    | inl hit ↦
        let stands =
          Occurs-seam s p kept more (contains-Occurs (p ++ kept ++ more) s hit) (elim long [
            | inl none_before ↦ inl none_before
            | inr enough ↦ inr (ground (arith, enough, le))
          ]) in
        elim stands [
          | inl o ↦ absurd (ground (arith, Occurs-contains (p ++ kept) s o, before.0))
          | inr o ↦ absurd (ground (arith, Occurs-contains (kept ++ more) s o, across.0))
        ]
  ],
  IsFree_seam ss max_len p kept more (ground (arith, le)) long before.1 across.1,
)
