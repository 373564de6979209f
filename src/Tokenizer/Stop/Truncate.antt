-- ===== src/Tokenizer/Stop/Truncate.antt =====
-- The text before the first stop sequence (crates/orion-tokenizer/src/lib.rs).
use orion_serve_rs.Prelude.{
  ℕ, ◌+◌, ◌-◌, ◌≤◌, ◌≡◌, ◌≢◌, refl, sym, ap, ◌∙◌, ◌⊎◌, inl, inr, some, List, [], ◌∷◌, ◌++◌, arith,
  min, leb, leb→le, leb→gt, All, Bool-cases, Option-cases, append-nil, append_assoc, subst,
}
use orion_serve_rs.Tokenizer.Text.{Text, len_utf8, byte_len, byte_len-append, len_utf8_pos}
use orion_serve_rs.Tokenizer.Stop.{
  starts_with, contains, slice_to, find, earlier, cut_at, StopSequenceMatcher, truncate_at_stop,
}
use orion_serve_rs.Tokenizer.Stop.Occurs.{contains-Occurs, starts_with_part, starts_with-append}
use orion_serve_rs.Tokenizer.Stop.Detects.{IsFree}
use orion_serve_rs.Tokenizer.Stop.Watch.{IsListed}

slice_to-append : (s t : Text) → slice_to (s ++ t) (byte_len s) ≡ some s
unfolding slice_to
slice_to-append [] [] = refl
slice_to-append [] (c ∷ t) = refl
slice_to-append (c ∷ s) t =
    let n = len_utf8 c + byte_len s in
    let short : n - len_utf8 c ≡ byte_len s = omega arith in
    ground (arith, len_utf8_pos c, slice_to-append s t, ap (slice_to (s ++ t)) short)

-- A position that is found is that of an occurrence.
find-some :
    (t s : Text) (n : ℕ)
    → find t s ≡ some n
    → (a : Text) × (b : Text) × (t ≡ a ++ (s ++ b)) × (byte_len a ≡ n)
unfolding find
find-some [] s n e = elim (Bool-cases (starts_with [] s)) [
  | inl here ↦ let (b, e') = starts_with_part [] s here in ([], b, e', ground arith)
  | inr absent ↦ absurd (ground arith)
]
find-some (c ∷ t) s n e = elim (Bool-cases (starts_with (c ∷ t) s)) [
  | inl here ↦ let (b, e') = starts_with_part (c ∷ t) s here in ([], b, e', ground arith)
  | inr not_here ↦ elim (Option-cases (find t s)) [
    | inl missing ↦ absurd (ground arith)
    | inr (m, found) ↦
        let (a, b, e', count) = find-some t s m found in
        (c ∷ a, b, ap (λ x. c ∷ x) e', ground (arith, count))
  ]
]

-- No occurrence stands before the position that is found.
find-first : (a s b : Text) → (n : ℕ) × (find (a ++ (s ++ b)) s ≡ some n) × (n ≤ byte_len a)
unfolding find
find-first [] [] [] = (0, refl, omega arith)
find-first [] [] (c ∷ b) = (0, refl, omega arith)
find-first [] (x ∷ s) b = (0, rw (starts_with-append (x ∷ s) b) refl, omega arith)
find-first (c ∷ a) s b =
    let (n, found, le) = find-first a s b in
    elim (Bool-cases (starts_with (c ∷ a ++ (s ++ b)) s)) [
      | inl here ↦ (0, ground arith, omega arith)
      | inr not_here ↦ (len_utf8 c + n, ground arith, omega arith)
    ]

-- A cut at the given end or at an occurrence, and behind no occurrence.
abbrev IsFirst : List Text → Text → ℕ → ℕ → Type 0
IsFirst ss t cut k =
    (k ≤ cut)
    × All (λ s. (n : ℕ) → find t s ≡ some n → k ≤ n) ss
    × ((k ≡ cut) ⊎ ((s : Text) × IsListed ss s × (find t s ≡ some k)))

cut_at-IsFirst : (ss : List Text) (t : Text) (cut : ℕ) → IsFirst ss t cut (cut_at ss t cut)
unfolding cut_at
cut_at-IsFirst [] t cut = (omega arith, tt, inl refl)
cut_at-IsFirst (s ∷ ss) t cut = elim (Option-cases (find t s)) [
  | inl missing ↦
      let (le, all, at) = cut_at-IsFirst ss t cut in
      subst (IsFirst (s ∷ ss) t cut) (sym (ap (λ o. cut_at ss t (earlier cut o)) missing))
        (le, (λ n found. absurd (ground (arith, missing, found)), all), listed_more at)
  | inr (m, here) ↦
      let (le, all, at) = cut_at-IsFirst ss t (min cut m) in
      subst (IsFirst (s ∷ ss) t cut) (sym (ap (λ o. cut_at ss t (earlier cut o)) here)) (
        omega (arith, le),
        (λ n found. let same : m ≡ n = ground (arith, here, found) in omega (arith, le, same), all),
        elim at [
          | inr other ↦ listed_more (inr other)
          | inl whole ↦ elim (Bool-cases (leb cut m)) [
            | inl sooner ↦ inl (omega (arith, whole, leb→le cut m sooner))
            | inr later ↦
                let here_cut : m ≡ cut_at ss t (min cut m) =
                  omega (arith, whole, leb→gt cut m later) in
                inr (s, ([], ss, refl), here ∙ ap some here_cut)
          ]
        ],
      )
]
  where
    listed_more :
        {n m : ℕ}
        → (n ≡ m) ⊎ ((x : Text) × IsListed ss x × (find t x ≡ some n))
        → (n ≡ m) ⊎ ((x : Text) × IsListed (s ∷ ss) x × (find t x ≡ some n))
    listed_more (inl whole) = inl whole
    listed_more (inr (x, (before, after, e), found)) =
        inr (x, (s ∷ before, after, ap (λ u. s ∷ u) e), found)

free_before :
    (ss : List Text) (t p r : Text) (n : ℕ)
    → t ≡ p ++ r
    → byte_len p ≡ n
    → All (λ s. s ≢ []) ss
    → All (λ s. (m : ℕ) → find t s ≡ some m → n ≤ m) ss
    → IsFree ss p
free_before [] t p r n e count h first = tt
free_before ([] ∷ ss) t p r n e count h first = absurd (h.0 refl)
free_before ((x ∷ s) ∷ ss) t p r n e count h first = (
  elim (Bool-cases (contains p (x ∷ s))) [
    | inr miss ↦ miss
    | inl hit ↦
        let (a, b, stands) = contains-Occurs p (x ∷ s) hit in
        let whole : t ≡ a ++ (x ∷ s ++ (b ++ r)) =
          e
          ∙ ap (λ u. u ++ r) stands
          ∙ append_assoc (a ++ x ∷ s) b r
          ∙ append_assoc a (x ∷ s) (b ++ r) in
        let (m, found, le) = find-first a (x ∷ s) (b ++ r) in
        let bound = first.0 m (ap (λ u. find u (x ∷ s)) whole ∙ found) in
        absurd (
          omega (
            arith,
            bound,
            le,
            count,
            ap byte_len stands,
            byte_len-append (a ++ x ∷ s) b,
            byte_len-append a (x ∷ s),
            len_utf8_pos x,
          ))
  ],
  free_before ss t p r n e count h.1 first.1,
)

-- The text is whole, or a stop sequence follows.
abbrev pub IsCut : List Text → Text → Text → Type 0
IsCut ss t p = (t ≡ p) ⊎ ((s : Text) × (b : Text) × IsListed ss s × (t ≡ p ++ (s ++ b)))

-- For stop sequences none of which is empty, `truncate_at_stop` does not panic: it gives a leading
-- part of the text in which no stop sequence stands, and which is the whole text or is followed by
-- a stop sequence.
pub truncate_at_stop-IsCut :
    (m : StopSequenceMatcher) (t : Text)
    → All (λ s. s ≢ []) m.sequences
    → (p : Text) × (truncate_at_stop m t ≡ some p) × IsFree m.sequences p × IsCut m.sequences t p
unfolding truncate_at_stop
truncate_at_stop-IsCut m t h =
    let (le, all, at) = cut_at-IsFirst m.sequences t (byte_len t) in
    let n = cut_at m.sequences t (byte_len t) in
    elim at [
      | inl whole ↦ (
        t,
        ap (slice_to t) whole
            ∙ ap (λ u. slice_to u (byte_len t)) (sym (append-nil t))
            ∙ slice_to-append t [],
        free_before m.sequences t t [] n (sym (append-nil t)) (sym whole) h all,
        inl refl,
      )
      | inr (s, listed, found) ↦
          let (a, b, e, count) = find-some t s n found in
          (
            a,
            ap (λ u. slice_to u n) e
                ∙ ap (slice_to (a ++ (s ++ b))) (sym count)
                ∙ slice_to-append a (s ++ b),
            free_before m.sequences t a (s ++ b) n e count h all,
            inr (s, b, listed, e),
          )
    ]
