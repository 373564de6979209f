-- ===== src/Models/Config/Names.antt =====
-- The names that a `config.json` has for architectures and data types, as
-- crates/orion-models/src/config.rs reads them.
use Prim.Native.String.{String}
use text.Mathlib.Text.{◌==◌}
use text.Mathlib.TextEquality.{eq_iff}
use orion_serve_rs.Prelude.{
  ℕ, ◌≡◌, refl, sym, subst, inl, inr, true, false, Option, none, some, List, [], ◌∷◌, arith,
  if_elim, Bool-cases,
}
use orion_serve_rs.Core.Model.{DType, f32, f16, bf16}
use orion_serve_rs.Models.Loaded.{Loaded, loaded, one_of, refused-ne-loaded, loaded_injective}
use orion_serve_rs.Models.Config.{
  EosField, single, multiple, Architecture, llama, qwen2, detect_in, detect_type, detected_or,
  as_str, parse_dtype, eos_of,
}

-- The class names of a checkpoint, and its model types.
pub data ClassName : String → Architecture → Type 0 where
  llama_class : ClassName "LlamaForCausalLM" llama
  mistral_class : ClassName "MistralForCausalLM" llama
  qwen2_class : ClassName "Qwen2ForCausalLM" qwen2

pub data TypeName : String → Architecture → Type 0 where
  llama_type : TypeName "llama" llama
  mistral_type : TypeName "mistral" llama
  qwen2_type : TypeName "qwen2" qwen2

-- The first class name that is known decides; where none is, the model type does.
pub data Detected (model_type : Option String) : List String → Architecture → Type 0 where
  first :
      {name : String} {names : List String} {arch : Architecture}
      → ClassName name arch
      → Detected model_type (name ∷ names) arch
  skips :
      {name : String} {names : List String} {arch : Architecture}
      → ((a : Architecture) → ¬ ClassName name a)
      → Detected model_type names arch
      → Detected model_type (name ∷ names) arch
  by_type :
      {type_name : String} {arch : Architecture}
      → model_type ≡ some type_name
      → TypeName type_name arch
      → Detected model_type [] arch

-- The name that the engine has for an architecture.
pub data ShortName : Architecture → String → Type 0 where
  llama_short : ShortName llama "llama"
  qwen2_short : ShortName qwen2 "qwen2"

pub data DtypeName : Option String → DType → Type 0 where
  unnamed : DtypeName none f32
  float32 : DtypeName (some "float32") f32
  float : DtypeName (some "float") f32
  float16 : DtypeName (some "float16") f16
  half : DtypeName (some "half") f16
  bfloat16 : DtypeName (some "bfloat16") bf16

pub data EosOf : Option EosField → List ℕ → Type 0 where
  no_eos : EosOf none []
  one_eos : (t : ℕ) → EosOf (some (single t)) (t ∷ [])
  more_eos : (ts : List ℕ) → EosOf (some (multiple ts)) ts

named : {s n : String} → (s == n) ≡ true → s ≡ n
named {s} {n} e = (eq_iff s n).0 e

-- A test that fails where its name has no meaning.
unnamed_test : (P : String → Type 0) {s n : String} → ¬ P s → P n → (s == n) ≡ false
unnamed_test P {s} {n} none_has has = elim (Bool-cases (s == n)) [
  | inl same ↦ absurd (none_has (subst P (sym (named same)) has))
  | inr differs ↦ differs
]

-- Two names that mean the same.
either_name :
    (P : String → Type 0) {s a b : String} → P a → P b → one_of s (a ∷ b ∷ []) ≡ true → P s
either_name P {s} {a} {b} has_a has_b listed = elim (Bool-cases (s == a)) [
  | inl same ↦ subst P (sym (named same)) has_a
  | inr differs ↦
      let same : (s == b) ≡ true = ground (arith, listed, differs) in
      subst P (sym (named same)) has_b
]

pub detects :
    (mt : Option String) (all names : List String) (arch : Architecture)
    → Detected mt names arch
    → detected_or (detect_in names) (detect_type all mt) ≡ loaded arch
detects mt all _ _ (first llama_class) = refl
detects mt all _ _ (first mistral_class) = refl
detects mt all _ _ (first qwen2_class) = refl
detects mt all (name ∷ names) arch (skips unknown d) =
    let no_llama = unnamed_test (λ n. ClassName n llama) (unknown llama) llama_class in
    let no_mistral = unnamed_test (λ n. ClassName n llama) (unknown llama) mistral_class in
    let no_qwen2 = unnamed_test (λ n. ClassName n qwen2) (unknown qwen2) qwen2_class in
    rw (no_llama, no_mistral, no_qwen2) (detects mt all names arch d)
detects mt all _ _ (by_type e llama_type) = rw e refl
detects mt all _ _ (by_type e mistral_type) = rw e refl
detects mt all _ _ (by_type e qwen2_type) = rw e refl

detected_type :
    (all : List String) (t : String) (arch : Architecture)
    → detect_type all (some t) ≡ loaded arch
    → TypeName t arch
detected_type all t arch =
    if_elim (λ (r : Loaded Architecture). r ≡ loaded arch → TypeName t arch)
      (one_of t ("llama" ∷ "mistral" ∷ []))
      (λ listed e.
        subst (TypeName t) (loaded_injective e)
          (either_name (λ n. TypeName n llama) llama_type mistral_type listed))
      (λ unlisted.
        if_elim (λ (r : Loaded Architecture). r ≡ loaded arch → TypeName t arch) (t == "qwen2")
          (λ same e. subst (TypeName t) (loaded_injective e) (rw (named same) qwen2_type))
          (λ differs e. absurd (refused-ne-loaded e)))

-- A name that is neither listed is the name of no architecture.
no_class :
    {name : String}
    → one_of name ("LlamaForCausalLM" ∷ "MistralForCausalLM" ∷ []) ≡ false
    → (name == "Qwen2ForCausalLM") ≡ false
    → (a : Architecture) → ¬ ClassName name a
no_class unlisted differs llama llama_class = cc
no_class unlisted differs llama mistral_class = cc
no_class unlisted differs qwen2 qwen2_class = cc

pub detected :
    (mt : Option String) (all names : List String) (arch : Architecture)
    → detected_or (detect_in names) (detect_type all mt) ≡ loaded arch
    → Detected mt names arch
detected none all [] arch e = absurd (refused-ne-loaded e)
detected (some t) all [] arch e = by_type refl (detected_type all t arch e)
detected mt all (name ∷ names) arch e =
    let Goal : Option Architecture → Type 0 =
      λ r. detected_or r (detect_type all mt) ≡ loaded arch → Detected mt (name ∷ names) arch in
    if_elim Goal (one_of name ("LlamaForCausalLM" ∷ "MistralForCausalLM" ∷ []))
      (λ listed e.
        subst (Detected mt (name ∷ names)) (loaded_injective e)
          (first (either_name (λ n. ClassName n llama) llama_class mistral_class listed)))
      (λ unlisted.
        if_elim Goal (name == "Qwen2ForCausalLM")
          (λ same e.
            subst (Detected mt (name ∷ names)) (loaded_injective e)
              (first (rw (named same) qwen2_class)))
          (λ differs e. skips (no_class unlisted differs) (detected mt all names arch e)))
      e

pub dtype_parsed : (o : Option String) (d : DType) → DtypeName o d → parse_dtype o ≡ loaded d
unfolding parse_dtype
dtype_parsed o d unnamed = refl
dtype_parsed o d float32 = refl
dtype_parsed o d float = refl
dtype_parsed o d float16 = refl
dtype_parsed o d half = refl
dtype_parsed o d bfloat16 = refl

pub dtype_named : (o : Option String) (d : DType) → parse_dtype o ≡ loaded d → DtypeName o d
unfolding parse_dtype
dtype_named none d e = subst (DtypeName none) (loaded_injective e) unnamed
dtype_named (some s) d e =
    let Goal : Loaded DType → Type 0 = λ r. r ≡ loaded d → DtypeName (some s) d in
    let found : (t : DType) → DtypeName (some s) t → loaded t ≡ loaded d → DtypeName (some s) d =
      λ t has e. subst (DtypeName (some s)) (loaded_injective e) has in
    if_elim Goal (one_of s ("float32" ∷ "float" ∷ []))
      (λ listed. found f32 (either_name (λ n. DtypeName (some n) f32) float32 float listed))
      (λ _.
        if_elim Goal (one_of s ("float16" ∷ "half" ∷ []))
          (λ listed. found f16 (either_name (λ n. DtypeName (some n) f16) float16 half listed))
          (λ _.
            if_elim Goal (s == "bfloat16") (λ same. found bf16 (rw (named same) bfloat16))
              (λ _ e. absurd (refused-ne-loaded e))))
      e

pub short_name : (arch : Architecture) → ShortName arch (as_str arch)
short_name llama = llama_short
short_name qwen2 = qwen2_short

pub as_str-ShortName : {arch : Architecture} {s : String} → ShortName arch s → as_str arch ≡ s
as_str-ShortName llama_short = refl
as_str-ShortName qwen2_short = refl

pub eos_of-EosOf : (o : Option EosField) → EosOf o (eos_of o)
eos_of-EosOf none = no_eos
eos_of-EosOf (some (single t)) = one_eos t
eos_of-EosOf (some (multiple ts)) = more_eos ts

pub EosOf-eos_of : {o : Option EosField} {ts : List ℕ} → EosOf o ts → eos_of o ≡ ts
EosOf-eos_of no_eos = refl
EosOf-eos_of (one_eos t) = refl
EosOf-eos_of (more_eos ts) = refl
