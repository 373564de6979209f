-- ===== src/Models/Config.antt =====
-- crates/orion-models/src/config.rs: a Hugging Face `config.json`, as serde reads it, made into the
-- metadata of the engine. Fields of type `f32` hold bits.
pub mod Accepts
pub mod Names
pub mod Described
use Prim.Native.String.{String}
use text.Mathlib.Text.{◌==◌}
use orion_serve_rs.Prelude.{
  ℕ, zero, suc, ◌*◌, ◌/◌, ◌%◌, Bool, true, false, not, ◌||◌, Option, none, some, List, [], ◌∷◌,
  if◌then◌else◌,
}
use orion_serve_rs.Prelude.Defaults.{unwrap_or}
use orion_serve_rs.Core.Error.{
  ModelError, missing_file, malformed, unsupported_architecture, unsupported_dtype,
}
use orion_serve_rs.Core.Model.{DType, f32, f16, bf16, ModelMetadata}
use orion_serve_rs.Models.Run.{is_zero}
use orion_serve_rs.Models.Loaded.{Loaded, loaded, refused, ◌>>=◌, found_or, one_of}

pub data EosField : Type 0 where
  single : ℕ → EosField
  multiple : List ℕ → EosField

abbrev pub into_vec : EosField → List ℕ
into_vec (single t) = t ∷ []
into_vec (multiple v) = v

pub record HfConfig : Type 0 where
  pub architectures : List String
  pub model_type : Option String
  pub hidden_size : ℕ
  pub num_hidden_layers : ℕ
  pub num_attention_heads : ℕ
  pub num_key_value_heads : Option ℕ
  pub head_dim : Option ℕ
  pub vocab_size : ℕ
  pub intermediate_size : Option ℕ
  pub max_position_embeddings : Option ℕ
  pub rope_theta : Option ℕ
  pub rms_norm_eps : Option ℕ
  pub torch_dtype : Option String
  pub eos_token_id : Option EosField
  pub bos_token_id : Option ℕ
  pub tie_word_embeddings : Option Bool

pub data Architecture : Type 0 where
  llama qwen2 : Architecture

-- Whether `config.json` stands in the directory, what reading it gives, and serde's parser.
unfoldable pub load : Bool → Loaded String → (String → Option HfConfig) → Loaded HfConfig
load exists text from_str =
    if not exists
    then refused (missing_file "config.json")
    else (text >>= λ t. found_or (from_str t) (malformed "config.json" "not a configuration"))

-- The first name of the list that stands for an architecture.
abbrev pub detect_in : List String → Option Architecture
detect_in [] = none
detect_in (a ∷ names) =
    if one_of a ("LlamaForCausalLM" ∷ "MistralForCausalLM" ∷ [])
    then some llama
    else (if a == "Qwen2ForCausalLM" then some qwen2 else detect_in names)

abbrev pub first_or : List String → String → String
first_or [] d = d
first_or (a ∷ names) d = a

abbrev pub detect_type : List String → Option String → Loaded Architecture
detect_type names none = refused (unsupported_architecture (first_or names "<unspecified>"))
detect_type names (some t) =
    if one_of t ("llama" ∷ "mistral" ∷ [])
    then loaded llama
    else (if t == "qwen2"
        then loaded qwen2
        else refused (unsupported_architecture (first_or names t)))

abbrev pub detected_or : Option Architecture → Loaded Architecture → Loaded Architecture
detected_or none r = r
detected_or (some a) r = loaded a

unfoldable pub detect : HfConfig → Loaded Architecture
detect c = detected_or (detect_in c.architectures) (detect_type c.architectures c.model_type)

abbrev pub has_qkv_bias : Architecture → Bool
has_qkv_bias llama = false
has_qkv_bias qwen2 = true

abbrev pub as_str : Architecture → String
as_str llama = "llama"
as_str qwen2 = "qwen2"

unfoldable pub parse_dtype : Option String → Loaded DType
parse_dtype none = loaded f32
parse_dtype (some s) =
    if one_of s ("float32" ∷ "float" ∷ [])
    then loaded f32
    else (if one_of s ("float16" ∷ "half" ∷ [])
        then loaded f16
        else (if s == "bfloat16" then loaded bf16 else refused (unsupported_dtype s)))

-- `max(1)`
abbrev pub at_least_one : ℕ → ℕ
at_least_one zero = 1
at_least_one (suc n) = suc n

abbrev pub kv_heads_of : HfConfig → ℕ
kv_heads_of c = unwrap_or c.num_key_value_heads c.num_attention_heads

abbrev pub head_dim_of : HfConfig → ℕ
head_dim_of c = unwrap_or c.head_dim (c.hidden_size / at_least_one c.num_attention_heads)

abbrev pub eos_of : Option EosField → List ℕ
eos_of none = []
eos_of (some e) = into_vec e

-- 10000.0 and 1e-5
abbrev pub default_theta : ℕ
default_theta = 1176256512

abbrev pub default_eps : ℕ
default_eps = 925353388

abbrev pub metadata_of : HfConfig → String → Architecture → DType → ModelMetadata
metadata_of c name arch dtype = record {
  architecture = as_str arch;
  name = name;
  hidden_size = c.hidden_size;
  num_layers = c.num_hidden_layers;
  num_attention_heads = c.num_attention_heads;
  num_kv_heads = kv_heads_of c;
  head_dim = head_dim_of c;
  vocab_size = c.vocab_size;
  max_position_embeddings = unwrap_or c.max_position_embeddings 2048;
  rope_theta = unwrap_or c.rope_theta default_theta;
  rms_norm_eps = unwrap_or c.rms_norm_eps default_eps;
  dtype = dtype;
  eos_token_ids = eos_of c.eos_token_id;
  bos_token_id = c.bos_token_id;
}

-- The checks, in their order, before `next`.
abbrev pub checked : HfConfig → Loaded ModelMetadata → Loaded ModelMetadata
checked c next =
    if is_zero c.num_attention_heads || is_zero c.num_hidden_layers
    then refused
        (malformed "config.json" "num_attention_heads and num_hidden_layers must be non-zero")
    else (if is_zero (kv_heads_of c)
        then refused (malformed "config.json" "num_key_value_heads must be non-zero")
        else (if not (is_zero (c.num_attention_heads % kv_heads_of c))
            then refused (
                malformed "config.json"
                  "num_attention_heads must be a multiple of num_key_value_heads")
            else (if is_zero (head_dim_of c)
                then refused (malformed "config.json" "head_dim resolved to zero")
                else (if is_zero c.vocab_size
                    then refused (malformed "config.json" "vocab_size must be non-zero")
                    else next))))

unfoldable pub to_metadata : HfConfig → String → Loaded ModelMetadata
unfolding detect parse_dtype
to_metadata c name = do
  arch ← detect c
  checked c (parse_dtype c.torch_dtype >>= λ dtype. loaded (metadata_of c name arch dtype))

abbrev pub ffn_dim : HfConfig → ℕ
ffn_dim c = unwrap_or c.intermediate_size (4 * c.hidden_size)

abbrev pub ties_embeddings : HfConfig → Bool
ties_embeddings c = unwrap_or c.tie_word_embeddings false
