-- ===== src/Tokenizer/Decoder/Whole.antt =====
-- Streaming through the incremental decoder (crates/orion-tokenizer/src/lib.rs) token by token.
use orion_serve_rs.Prelude.{
  ℕ, ◌+◌, ◌-◌, ◌*◌, ◌≡◌, refl, sym, ap, ◌∙◌, Bool, some, List, [], ◌∷◌, ◌++◌, arith, ltb, leb,
  ltb→lt, leb→le, length, take, drop, length-append, length-take, take-append-drop, append-nil,
  append_assoc, if_elim,
}
use orion_serve_rs.Core.Error.{Result, ok}
use orion_serve_rs.Tokenizer.Text.{
  Text, byte_len, slice_from, ends_with, byte_len-append, slice_from-append, byte_len_zero,
}
use orion_serve_rs.Tokenizer.Decoder.{
  IncrementalDecoder, new, with_window, Outcome, rebase, common_bytes, flush, push_window,
  push_token, push, finish, stream,
}
use orion_serve_rs.Tokenizer.Decoder.Stream.{
  Detokenizes, Follows, Progress, drop-append, common_bytes-append, emit_new-Progress, Follows-grow,
  rebase-Follows,
}

module _ {decode : List ℕ → Bool → Result Text} {skip : Bool} {text : List ℕ → Text}
    (h : Detokenizes decode skip text) where
  decodes_at :
      (d : IncrementalDecoder) (ts : List ℕ)
      → d.skip_special_tokens ≡ skip
      → decode ts d.skip_special_tokens ≡ ok (text ts)
  decodes_at d ts e = ap (decode ts) e ∙ h.decodes ts

  push_window-Progress :
      (d : IncrementalDecoder) → Follows text skip d → Progress text skip d (push_window decode d)
  unfolding push_window
  push_window-Progress d v =
      let window_is : drop d.window_start d.tokens ≡ v.win =
        ap (λ n. drop n d.tokens) (sym v.starts)
        ∙ ap (drop (length v.pre)) v.parted
        ∙ drop-append v.pre v.win in
      rw window_is (rw (decodes_at d v.win v.skips) (emit_new-Progress text skip d v))

  Progress-from :
      (d d1 : IncrementalDecoder) (o : Outcome)
      → d1.emitted ≡ d.emitted
      → d1.tokens ≡ d.tokens
      → Progress text skip d1 o
      → Progress text skip d o
  Progress-from d d1 o same_text same_tokens (piece, d', e, v, more, tokens) =
      (piece, d', e, v, more ∙ ap (λ u. u ++ piece) same_text, tokens ∙ same_tokens)

  push_token-Progress :
      (d : IncrementalDecoder) → Follows text skip d → Progress text skip d (push_token decode d)
  unfolding push_token
  push_token-Progress d v =
      if_elim (Progress text skip d) (ltb (d.window * 2) (length d.tokens - d.window_start))
        (λ long.
          let new_start = length d.tokens - d.window in
          let a = take (new_start - d.window_start) v.win in
          let b = drop (new_start - d.window_start) v.win in
          let window_is : drop d.window_start d.tokens ≡ v.win =
            ap (λ n. drop n d.tokens) (sym v.starts)
            ∙ ap (drop (length v.pre)) v.parted
            ∙ drop-append v.pre v.win in
          let at_start : d.window_start + length a ≡ new_start = omega (
            arith,
            ltb→lt (d.window * 2) (length d.tokens - d.window_start) long,
            length-take (new_start - d.window_start) v.win,
            ap length v.parted,
            length-append v.pre v.win,
            v.starts,
          ) in
          let (v', same_text, same_tokens) =
            rebase-Follows text skip d v a b new_start h.splits
              (sym (take-append-drop (new_start - d.window_start) v.win)) at_start in
          rw window_is (
            rw (decodes_at d a v.skips) (
              Progress-from d (rebase d new_start (text a)) _ same_text same_tokens
                (push_window-Progress (rebase d new_start (text a)) v'))))
        (λ _. push_window-Progress d v)

  push-Progress :
      (d : IncrementalDecoder) (token : ℕ)
      → Follows text skip d
      → Progress text skip (record d { tokens = d.tokens ++ token ∷ [] }) (push decode d token)
  unfolding push
  push-Progress d token v =
      push_token-Progress (record d { tokens = d.tokens ++ token ∷ [] })
        (Follows-grow text skip d token h.stable v)

  all_text :
      (d : IncrementalDecoder) (v : Follows text skip d) → text d.tokens ≡ d.emitted ++ v.rest
  all_text d v =
      ap text v.parted
      ∙ h.splits v.pre v.win v.pre_clean
      ∙ ap (λ u. text v.pre ++ u) v.within
      ∙ sym (append_assoc (text v.pre) v.here v.rest)
      ∙ ap (λ u. u ++ v.rest) (sym v.so_far)

  -- The last piece completes the text.
  finish_completes :
      (d : IncrementalDecoder)
      → Follows text skip d
      → (piece : Text) × (d' : IncrementalDecoder) × (finish decode d ≡ some (ok piece, d'))
        × (d.emitted ++ piece ≡ text d.tokens)
  unfolding finish flush
  finish_completes d v =
      let full = text d.tokens in
      let common : common_bytes full d.emitted ≡ byte_len d.emitted =
        ap (λ u. common_bytes u d.emitted) (all_text d v) ∙ common_bytes-append d.emitted v.rest in
      let sliced : slice_from full (byte_len d.emitted) ≡ some v.rest =
        ap (λ u. slice_from u (byte_len d.emitted)) (all_text d v)
        ∙ slice_from-append d.emitted v.rest in
      rw (decodes_at d d.tokens v.skips) (
        rw common (
          if_elim
            (λ (o : Outcome).
              (piece : Text) × (d' : IncrementalDecoder) × (o ≡ some (ok piece, d'))
              × (d.emitted ++ piece ≡ full))
            (leb (byte_len full) (byte_len d.emitted))
            (λ all_out.
              let nothing : v.rest ≡ [] = byte_len_zero v.rest (
                omega (
                  arith,
                  leb→le (byte_len full) (byte_len d.emitted) all_out,
                  ap byte_len (all_text d v),
                  byte_len-append d.emitted v.rest,
                )) in
              ([], d, refl, ap (λ u. d.emitted ++ u) (sym nothing) ∙ sym (all_text d v)))
            (λ _. rw sliced (v.rest, _, refl, sym (all_text d v)))))

  stream-Follows :
      (ts : List ℕ) (d : IncrementalDecoder)
      → Follows text skip d
      → (s : Text) × (stream decode d ts ≡ some s) × (d.emitted ++ s ≡ text (d.tokens ++ ts))
  unfolding stream
  stream-Follows [] d v =
      let (piece, d', e, whole) = finish_completes d v in
      (
        piece ++ [],
        rw e refl,
        ap (λ u. d.emitted ++ u) (append-nil piece) ∙ whole ∙ ap text (sym (append-nil d.tokens)),
      )
  stream-Follows (t ∷ ts) d v =
      let (piece, d', e, v', more, tokens) = push-Progress d t v in
      let (s, e', whole) = stream-Follows ts d' v' in
      (
        piece ++ s,
        rw e (rw e' refl),
        sym (append_assoc d.emitted piece s)
            ∙ ap (λ u. u ++ s) (sym more)
            ∙ whole
            ∙ ap (λ u. text (u ++ ts)) tokens
            ∙ ap text (append_assoc d.tokens (t ∷ []) ts),
      )

  -- For a decoding that never fails, gives nothing for no tokens, changes a text on more tokens
  -- only in trailing replacement characters, and past a text that does not end in one adds the
  -- text of the further tokens: pushing tokens one by one through a new incremental decoder of any
  -- window, and finishing it, gives pieces that together are the text of all tokens decoded at
  -- once, with no failure and no panic.
  pub stream-decode :
      (window : ℕ) (ts : List ℕ) → stream decode (with_window (new skip) window) ts ≡ some (text ts)
  unfolding with_window new ends_with
  stream-decode window ts =
      let (s, e, whole) = stream-Follows ts (with_window (new skip) window) (record {
        pre = [];
        win = [];
        here = [];
        rest = [];
        parted = refl;
        starts = refl;
        pre_clean = rw h.of_none refl;
        so_far = sym h.of_none ∙ sym (append-nil (text []));
        counted = refl;
        here_clean = refl;
        within = h.of_none;
        skips = refl;
      }) in
      e ∙ ap some whole
