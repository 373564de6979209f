-- ===== src/Tokenizer/Stop/Occurs.antt =====
-- Where a text stands in another (crates/orion-tokenizer/src/lib.rs), and what the test and the cut of
-- the matcher find.
use orion_serve_rs.Prelude.{
  ◌≤◌, ◌≡◌, refl, sym, ap, ◌∙◌, ◌⊎◌, inl, inr, true, [], ◌∷◌, ◌++◌, arith, ◌==◌, ==_iff, ltb,
  Bool-cases, append_assoc, ==_refl,
}
use orion_serve_rs.Tokenizer.Text.{Text, byte_len, byte_len-append, shorter_part}
use orion_serve_rs.Tokenizer.Stop.{starts_with, contains}

-- `s` stands in `t`.
abbrev pub Occurs : Text → Text → Type 0
Occurs s t = (a : Text) × (b : Text) × (t ≡ a ++ s ++ b)

pub Occurs-append : (s t u : Text) → Occurs s t → Occurs s (t ++ u)
Occurs-append s t u (a, b, e) = (a, b ++ u, ap (λ x. x ++ u) e ∙ append_assoc (a ++ s) b u)

pub Occurs-after : (s t u : Text) → Occurs s u → Occurs s (t ++ u)
Occurs-after s t u (a, b, e) = (
  t ++ a,
  b,
  ap (λ x. t ++ x) e
      ∙ ap (λ x. t ++ x) (append_assoc a s b)
      ∙ sym (append_assoc t a (s ++ b))
      ∙ sym (append_assoc (t ++ a) s b),
)

pub starts_with_part : (t s : Text) → starts_with t s ≡ true → (b : Text) × (t ≡ s ++ b)
starts_with_part t [] e = (t, refl)
starts_with_part [] (x ∷ s) e = absurd (ground arith)
starts_with_part (c ∷ t) (x ∷ s) e = elim (Bool-cases (c == x)) [
  | inl same ↦
      let here : starts_with t s ≡ true = ground arith in
      let (b, e') = starts_with_part t s here in let head : c ≡ x = (==_iff c x).0 same in (b, cc)
  | inr other ↦ absurd (ground arith)
]

pub starts_with-append : (s b : Text) → starts_with (s ++ b) s ≡ true
starts_with-append [] b = refl
starts_with-append (x ∷ s) b = rw (==_refl x) (starts_with-append s b)

pub contains-Occurs : (t s : Text) → contains t s ≡ true → Occurs s t
unfolding contains
contains-Occurs [] s e = let (b, e') = starts_with_part [] s e in ([], b, e')
contains-Occurs (c ∷ t) s e = elim (Bool-cases (starts_with (c ∷ t) s)) [
  | inl here ↦ let (b, e') = starts_with_part (c ∷ t) s here in ([], b, e')
  | inr later ↦
      let tail : contains t s ≡ true = ground arith in
      let (a, b, e') = contains-Occurs t s tail in (c ∷ a, b, ap (λ x. c ∷ x) e')
]

contains-append : (a s b : Text) → contains (a ++ s ++ b) s ≡ true
unfolding contains
contains-append [] [] [] = refl
contains-append [] [] (c ∷ b) = refl
contains-append [] (x ∷ s) b = rw (starts_with-append (x ∷ s) b) refl
contains-append (c ∷ a) s b = ground (arith, contains-append a s b)

pub Occurs-contains : (t s : Text) → Occurs s t → contains t s ≡ true
Occurs-contains t s (a, b, e) = ap (λ x. contains x s) e ∙ contains-append a s b

-- What stands across a seam stands in what is kept of the text before it, if that is long enough.
pub Occurs-seam :
    (s p kept more : Text)
    → Occurs s (p ++ kept ++ more)
    → (p ≡ []) ⊎ (byte_len s ≤ byte_len kept)
    → Occurs s (p ++ kept) ⊎ Occurs s (kept ++ more)
Occurs-seam s p kept more (a, b, e) (inl none_before) =
    inr (a, b, ap (λ x. x ++ kept ++ more) (sym none_before) ∙ e)
Occurs-seam s p kept more (a, b, e) (inr long) = elim (Bool-cases (ltb (byte_len a) (byte_len p))) [
  | inl before ↦
      let whole : (a ++ s) ++ b ≡ (p ++ kept) ++ more = sym e in
      let fits : byte_len (a ++ s) ≤ byte_len (p ++ kept) =
        ground (arith, byte_len-append a s, byte_len-append p kept) in
      let (u, e1, e2) = shorter_part (a ++ s) b (p ++ kept) more whole fits in inl (a, u, e1)
  | inr after ↦
      let whole : p ++ (kept ++ more) ≡ a ++ (s ++ b) =
        sym (append_assoc p kept more) ∙ e ∙ append_assoc a s b in
      let fits : byte_len p ≤ byte_len a = ground arith in
      let (u, e1, e2) = shorter_part p (kept ++ more) a (s ++ b) whole fits in
      inr (u, b, e2 ∙ sym (append_assoc u s b))
]
