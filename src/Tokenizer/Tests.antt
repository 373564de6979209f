-- ===== src/Tokenizer/Tests.antt =====
-- The tokenizer's crate (crates/orion-tokenizer/src/lib.rs) on concrete texts.
use orion_serve_rs.Prelude.{
  ℕ, zero, suc, ◌≡◌, ◌≢◌, refl, ap, ◌∙◌, sym, Bool, false, Option, some, List, [], ◌∷◌, ◌++◌, All,
  arith, append_assoc,
}
use orion_serve_rs.Core.Error.{Result, ok}
use orion_serve_rs.Tokenizer.Text.{Text, replacement, trim_end, trim_end_part}
use orion_serve_rs.Tokenizer.Template.{render, for_architecture}
use orion_serve_rs.Tokenizer.Decoder.{new, with_window, stream}
use orion_serve_rs.Tokenizer.Decoder.Stream.{Detokenizes}
use orion_serve_rs.Tokenizer.Decoder.Whole.{stream-decode}
use orion_serve_rs.Tokenizer.Stop.{StopSequenceMatcher, truncate_at_stop}
use orion_serve_rs.Tokenizer.Stop
use orion_serve_rs.Tokenizer.Stop.Detects.{IsFree}
use orion_serve_rs.Tokenizer.Stop.Watch.{watch, join, Verdict, watch-new}
use orion_serve_rs.Tokenizer.Stop.Truncate.{IsCut, truncate_at_stop-IsCut}

-- A vocabulary of two words and the characters; one of the words ends in an open character.
abbrev word : ℕ → Text
word zero = 104 ∷ 105 ∷ []
word (suc zero) = 233 ∷ replacement ∷ []
word (suc (suc t)) = suc (suc t) ∷ []

words : List ℕ → Text
words [] = []
words (t ∷ ts) = word t ++ words ts

abbrev decode : List ℕ → Bool → Result Text
decode ts skip = ok (words ts)

words-append : (xs ys : List ℕ) → words (xs ++ ys) ≡ words xs ++ words ys
unfolding words
words-append [] ys = refl
words-append (x ∷ xs) ys =
    ap (λ u. word x ++ u) (words-append xs ys) ∙ sym (append_assoc (word x) (words xs) (words ys))

words-Detokenizes : Detokenizes decode false words
unfolding words
words-Detokenizes = record {
  decodes = λ ts. refl;
  of_none = refl;
  stable = λ xs ys.
      let (s, e) = trim_end_part (words xs) replacement in
      (
        s ++ words ys,
        words-append xs ys
            ∙ ap (λ u. u ++ words ys) e
            ∙ append_assoc (trim_end (words xs) replacement) s (words ys),
      );
  splits = λ xs ys clean. words-append xs ys;
}

abbrev tokens : List ℕ
tokens = 0 ∷ 1 ∷ 100 ∷ 0 ∷ 0 ∷ 233 ∷ 1 ∷ []

stream-decode_example : stream decode (with_window (new false) 1) tokens ≡ some (words tokens)
stream-decode_example = stream-decode words-Detokenizes 1 tokens

abbrev stops : List Text
stops = (69 ∷ 78 ∷ 68 ∷ []) ∷ (233 ∷ []) ∷ []

abbrev pieces : List Text
pieces = (97 ∷ 69 ∷ []) ∷ (78 ∷ []) ∷ (68 ∷ 33 ∷ []) ∷ []

stops_not_empty : All (λ s. s ≢ []) stops
stops_not_empty = (λ e. ground arith, (λ e. ground arith, tt))

watch-new_example :
    (r : Option Text) × (watch (Stop.new stops) pieces ≡ some r) × Verdict stops (join pieces) r
watch-new_example = watch-new stops pieces stops_not_empty

-- "END" arrives in three pieces.
run_watch : watch (Stop.new stops) pieces ≡ some (some (69 ∷ 78 ∷ 68 ∷ []))
unfolding watch Stop.new Stop.longest Stop.push Stop.find_in Stop.contains Stop.shorten
run_watch = refl

abbrev matcher : StopSequenceMatcher
matcher = record { sequences = stops; max_len = 3; buffer = [] }

truncate_at_stop-IsCut_example :
    (p : Text) × (truncate_at_stop matcher (join pieces) ≡ some p)
    × IsFree stops p
    × IsCut stops (join pieces) p
truncate_at_stop-IsCut_example = truncate_at_stop-IsCut matcher (join pieces) stops_not_empty

run_render :
    render (for_architecture "qwen2") (("user", "hi") ∷ [])
    ≡ "<|im_start|>user\nhi<|im_end|>\n<|im_start|>assistant\n"
unfolding render for_architecture
run_render = refl
