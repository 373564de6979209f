-- ===== src/Tokenizer/Decoder/Stream.antt =====
-- The incremental decoder (crates/orion-tokenizer/src/lib.rs) against the decoding of all tokens at
-- once.
use orion_serve_rs.Prelude.{
  ℕ, ◌+◌, ◌≤◌, ◌≡◌, refl, sym, ap, ◌∙◌, inl, inr, Bool, false, not, ◌&&◌, some, List, [], ◌∷◌, ◌++◌,
  arith, leb, length, drop, length-append, append-nil, append_assoc, Bool-cases, if_elim,
}
use orion_serve_rs.Core.Error.{Result, ok}
use orion_serve_rs.Tokenizer.Text.{
  Text, byte_len, slice_from, replacement, ends_with, trim_end, byte_len-append, slice_from-append,
  trim_end_keeps, trim_end-ends_with, trim_end_part, shorter_part, ends_with_both, ends_with_second,
  trim_end-append,
}
use orion_serve_rs.Tokenizer.Decoder.{
  IncrementalDecoder, Outcome, rebase, settled, emit, emit_new, common_bytes,
}

-- Decoding as a byte-level vocabulary does it: more tokens change a text only in a last character
-- that is not complete, and past a complete one they add their own text.
pub record Detokenizes (decode : List ℕ → Bool → Result Text) (skip : Bool) (text : List ℕ → Text)
    : Type 0 where
  pub decodes : (ts : List ℕ) → decode ts skip ≡ ok (text ts)
  pub of_none : text [] ≡ []
  pub stable :
      (xs ys : List ℕ) → (s : Text) × (text (xs ++ ys) ≡ trim_end (text xs) replacement ++ s)
  pub splits :
      (xs ys : List ℕ)
      → ends_with (text xs) replacement ≡ false
      → text (xs ++ ys) ≡ text xs ++ text ys

pub drop-append : (xs ys : List ℕ) → drop (length xs) (xs ++ ys) ≡ ys
drop-append [] ys = refl
drop-append (x ∷ xs) ys = drop-append xs ys

pub common_bytes-append : (s t : Text) → common_bytes (s ++ t) s ≡ byte_len s
unfolding common_bytes
common_bytes-append [] [] = refl
common_bytes-append [] (c ∷ t) = refl
common_bytes-append (c ∷ s) t = ground (arith, common_bytes-append s t)

pub settled-trim_end : (t : Text) → settled t ≡ trim_end t replacement
settled-trim_end t = elim (Bool-cases (ends_with t replacement)) [
  | inl open_end ↦ rw open_end refl
  | inr clean ↦ rw clean (sym (trim_end_keeps t replacement clean))
]

module _ (text : List ℕ → Text) where
  -- What was emitted is the text of the tokens before the window and a part of that of the window.
  pub record Follows (skip : Bool) (d : IncrementalDecoder) : Type 0 where
    pub pre : List ℕ
    pub win : List ℕ
    pub here : Text
    pub rest : Text
    pub parted : d.tokens ≡ pre ++ win
    pub starts : length pre ≡ d.window_start
    pub pre_clean : ends_with (text pre) replacement ≡ false
    pub so_far : d.emitted ≡ text pre ++ here
    pub counted : byte_len here ≡ d.window_emitted
    pub here_clean : ends_with here replacement ≡ false
    pub within : text win ≡ here ++ rest
    pub skips : d.skip_special_tokens ≡ skip

  -- A piece was emitted, and the decoder goes on.
  abbrev pub Progress : Bool → IncrementalDecoder → Outcome → Type 0
  Progress skip d o =
      (piece : Text) × (d' : IncrementalDecoder) × (o ≡ some (ok piece, d'))
      × Follows skip d'
      × (d'.emitted ≡ d.emitted ++ piece)
      × (d'.tokens ≡ d.tokens)

  emit-Progress :
      (skip : Bool) (d : IncrementalDecoder) (v : Follows skip d) (p s : Text)
      → v.rest ≡ p ++ s
      → ends_with p replacement ≡ false
      → Progress skip d (emit d p)
  emit-Progress skip d v [] s e clean = ([], d, refl, v, sym (append-nil d.emitted), refl)
  emit-Progress skip d v (c ∷ t) s e clean = (
    c ∷ t,
    _,
    refl,
    record {
      pre = v.pre;
      win = v.win;
      here = v.here ++ c ∷ t;
      rest = s;
      parted = v.parted;
      starts = v.starts;
      pre_clean = v.pre_clean;
      so_far = ap (λ u. u ++ c ∷ t) v.so_far ∙ append_assoc (text v.pre) v.here (c ∷ t);
      counted = omega (arith, byte_len-append v.here (c ∷ t), v.counted);
      here_clean = ends_with_both v.here (c ∷ t) replacement v.here_clean clean;
      within = v.within ∙ ap (λ u. v.here ++ u) e ∙ sym (append_assoc v.here (c ∷ t) s);
      skips = v.skips;
    },
    refl,
    refl,
  )

  pub emit_new-Progress :
      (skip : Bool) (d : IncrementalDecoder) (v : Follows skip d)
      → Progress skip d (emit_new d (text v.win))
  unfolding emit_new
  emit_new-Progress skip d v =
      if_elim (Progress skip d) (leb (byte_len (text v.win)) d.window_emitted)
        (λ _. ([], d, refl, v, sym (append-nil d.emitted), refl))
        (λ _.
          let sliced : slice_from (text v.win) d.window_emitted ≡ some v.rest =
            rw (sym v.counted) (rw v.within (slice_from-append v.here v.rest)) in
          rw sliced (
            rw (settled-trim_end v.rest) (
              let (s, e) = trim_end_part v.rest replacement in
              emit-Progress skip d v (trim_end v.rest replacement) s e
                (trim_end-ends_with v.rest replacement))))

  pub Follows-grow :
      (skip : Bool) (d : IncrementalDecoder) (token : ℕ)
      → ((xs ys : List ℕ) → (s : Text) × (text (xs ++ ys) ≡ trim_end (text xs) replacement ++ s))
      → Follows skip d
      → Follows skip (record d { tokens = d.tokens ++ token ∷ [] })
  Follows-grow skip d token stable v =
      let (s, e) = stable v.win (token ∷ []) in
      record {
        pre = v.pre;
        win = v.win ++ token ∷ [];
        here = v.here;
        rest = trim_end v.rest replacement ++ s;
        parted = ap (λ u. u ++ token ∷ []) v.parted ∙ append_assoc v.pre v.win (token ∷ []);
        starts = v.starts;
        pre_clean = v.pre_clean;
        so_far = v.so_far;
        counted = v.counted;
        here_clean = v.here_clean;
        within =
            e
            ∙ ap (λ u. trim_end u replacement ++ s) v.within
            ∙ ap (λ u. u ++ s) (trim_end-append v.here v.rest replacement v.here_clean)
            ∙ append_assoc v.here (trim_end v.rest replacement) s;
        skips = v.skips;
      }

  -- The window moves past a clean part of it.
  pub rebase-Follows :
      (skip : Bool) (d : IncrementalDecoder) (v : Follows skip d) (a b : List ℕ) (new_start : ℕ)
      → ((xs ys : List ℕ)
          → ends_with (text xs) replacement ≡ false
          → text (xs ++ ys) ≡ text xs ++ text ys)
      → v.win ≡ a ++ b
      → d.window_start + length a ≡ new_start
      → Follows skip (rebase d new_start (text a))
        × ((rebase d new_start (text a)).emitted ≡ d.emitted)
        × ((rebase d new_start (text a)).tokens ≡ d.tokens)
  unfolding rebase
  rebase-Follows skip d v a b new_start splits cut at_start =
      if_elim
        (λ (d' : IncrementalDecoder).
          Follows skip d' × (d'.emitted ≡ d.emitted) × (d'.tokens ≡ d.tokens))
        (not (ends_with (text a) replacement) && leb (byte_len (text a)) d.window_emitted)
        (λ both.
          let clean : ends_with (text a) replacement ≡ false = ground arith in
          let short : byte_len (text a) ≤ byte_len v.here = ground (arith, v.counted) in
          let whole : text a ++ text b ≡ v.here ++ v.rest =
            sym (splits a b clean) ∙ ap text (sym cut) ∙ v.within in
          let (u, e1, e2) = shorter_part (text a) (text b) v.here v.rest whole short in
          let moved : text (v.pre ++ a) ≡ text v.pre ++ text a = splits v.pre a v.pre_clean in
          (
            record {
              pre = v.pre ++ a;
              win = b;
              here = u;
              rest = v.rest;
              parted = v.parted ∙ ap (λ x. v.pre ++ x) cut ∙ sym (append_assoc v.pre a b);
              starts = omega (arith, length-append v.pre a, v.starts, at_start);
              pre_clean =
                  rw moved (ends_with_both (text v.pre) (text a) replacement v.pre_clean clean);
              so_far =
                  v.so_far
                  ∙ ap (λ x. text v.pre ++ x) e1
                  ∙ sym (append_assoc (text v.pre) (text a) u)
                  ∙ ap (λ x. x ++ u) (sym moved);
              counted = omega (arith, v.counted, ap byte_len e1, byte_len-append (text a) u);
              here_clean = ends_with_second (text a) u replacement (rw e1 at v.here_clean);
              within = e2;
              skips = v.skips;
            },
            refl,
            refl,
          ))
        (λ _. (v, refl, refl))
