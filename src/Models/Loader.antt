-- ===== src/Models/Loader.antt =====
-- crates/orion-models/src/loader.rs: the shards of a checkpoint and its tensors. A shard stands for the
-- mapped file. What the `safetensors` and `half` crates do is a parameter.
pub mod Index
use Prim.Native.String.{String}
use text.Mathlib.Text.{◌==◌}
use orion_serve_rs.Prelude.{
  ℕ, zero, suc, ◌+◌, ◌*◌, Bool, true, false, not, Option, none, some, List, [], ◌∷◌, ◌++◌,
  if◌then◌else◌, list_eq, length, get_elem?,
}
use orion_serve_rs.Core.Error.{
  ModelError, path_not_found, missing_file, malformed, unsupported_dtype, shape_mismatch,
  tensor_not_found,
}
use orion_serve_rs.Models.Run.{Run, returned, failed, panic}
use orion_serve_rs.Models.Loaded.{Loaded, loaded, refused, ◌>>=◌, found_or}
use orion_serve_rs.Models.Tensor.{Matrix, new_matrix}

-- The data types of a tensor in a file that the engine reads, and any other, by its name.
pub data Dtype : Type 0 where
  f32 f16 bf16 : Dtype
  other : String → Dtype

pub record TensorView : Type 0 where
  pub dtype : Dtype
  pub shape : List ℕ
  pub bytes : List ℕ

-- `SafeTensors::deserialize` gives the tensors of a file by name, or an error; `f16` and `bf16` bits
-- are widened to `f32` bits.
pub record Format (S : Type 0) : Type 0 where
  pub deserialize : S → Option (List (String × TensorView))
  pub open_file : String → Loaded S
  pub f16_to_f32 : ℕ → ℕ
  pub bf16_to_f32 : ℕ → ℕ
  -- `format!("{i}")`
  pub usize_to_string : ℕ → String

abbrev pub names_of : List (String × TensorView) → List String
names_of [] = []
names_of ((name, view) ∷ rest) = name ∷ names_of rest

abbrev pub find_view : List (String × TensorView) → String → Option TensorView
find_view [] name = none
find_view ((n, view) ∷ rest) name = if n == name then some view else find_view rest name

-- `chunks_exact(4)` and `f32::from_le_bytes`; bytes left over are dropped.
abbrev pub from_le_bytes_4 : List ℕ → List ℕ
from_le_bytes_4 (a ∷ b ∷ c ∷ d ∷ rest) =
    (a + 256 * b + 65536 * c + 16777216 * d) ∷ from_le_bytes_4 rest
from_le_bytes_4 _ = []

-- `chunks_exact(2)`, each pair widened.
abbrev pub from_le_bytes_2 : (ℕ → ℕ) → List ℕ → List ℕ
from_le_bytes_2 widen (a ∷ b ∷ rest) = widen (a + 256 * b) ∷ from_le_bytes_2 widen rest
from_le_bytes_2 widen _ = []

-- The first shard that a name was put under; a further one does not replace it.
abbrev pub lookup : List (String × ℕ) → String → Option ℕ
lookup [] name = none
lookup ((n, i) ∷ index) name = if n == name then some i else lookup index name

abbrev pub contains_key : List (String × ℕ) → String → Bool
contains_key [] name = false
contains_key ((n, i) ∷ index) name = if n == name then true else contains_key index name

abbrev pub or_insert : List (String × ℕ) → String → ℕ → List (String × ℕ)
or_insert index name i = if contains_key index name then index else index ++ (name, i) ∷ []

abbrev pub or_insert_all : List (String × ℕ) → List String → ℕ → List (String × ℕ)
or_insert_all index [] i = index
or_insert_all index (n ∷ names) i = or_insert_all (or_insert index n i) names i

-- The files in the order of their sorted paths.
pub record CheckpointLoader (S : Type 0) : Type 0 where
  pub shards : List (String × S)
  pub index : List (String × ℕ)

abbrev pub with_shard :
    {S : Type 0} → CheckpointLoader S → ℕ → String × S → List String → CheckpointLoader S
with_shard l i shard names = record {
  shards = l.shards ++ shard ∷ [];
  index = or_insert_all l.index names i;
}

abbrev pub of_run : {A : Type 0} → Run A → ModelError → Loaded A
of_run (returned a) e = loaded a
of_run (failed why) e = refused e
of_run panic e = refused e

module _ {S : Type 0} (fmt : Format S) where
  abbrev pub widened : Dtype → List ℕ → Loaded (List ℕ)
  widened f32 bytes = loaded (from_le_bytes_4 bytes)
  widened f16 bytes = loaded (from_le_bytes_2 fmt.f16_to_f32 bytes)
  widened bf16 bytes = loaded (from_le_bytes_2 fmt.bf16_to_f32 bytes)
  widened (other d) bytes = refused (unsupported_dtype d)

  unfoldable pub view_to_f32 : TensorView → Loaded (List ℕ)
  view_to_f32 view = widened view.dtype view.bytes

  -- The tensors of a shard.
  abbrev pub with_tensors : String × S → Loaded (List (String × TensorView))
  with_tensors (path, s) =
      found_or (fmt.deserialize s) (malformed path "the file is not a safetensors file")

  -- The shards from number `i` on are opened and their names added.
  abbrev pub open_from : CheckpointLoader S → ℕ → List String → Loaded (CheckpointLoader S)
  open_from l i [] = loaded l
  open_from l i (path ∷ paths) = do
    s ← fmt.open_file path
    tensors ← with_tensors (path, s)
    open_from (with_shard l i (path, s) (names_of tensors)) (suc i) paths

  abbrev pub open_paths : String → List String → Loaded (CheckpointLoader S)
  open_paths dir [] = refused (missing_file dir)
  open_paths dir (path ∷ paths) = open_from (record { shards = []; index = [] }) 0 (path ∷ paths)

  -- `paths` are those of the directory with the extension, sorted.
  unfoldable pub open_dir : String → Bool → Loaded (List String) → Loaded (CheckpointLoader S)
  open_dir dir exists listing =
      if not exists then refused (path_not_found dir) else (listing >>= open_paths dir)

  abbrev pub len : CheckpointLoader S → ℕ
  len l = length l.index

  abbrev pub contains : CheckpointLoader S → String → Bool
  contains l name = contains_key l.index name

  -- The index names shards that are there, or the access panics; here it is an error.
  unfoldable pub tensor : CheckpointLoader S → String → Loaded (List ℕ × List ℕ)
  unfolding view_to_f32
  tensor l name = do
    i ← found_or (lookup l.index name) (tensor_not_found name)
    shard ← found_or (get_elem? l.shards i) (tensor_not_found name)
    tensors ← with_tensors shard
    view ← found_or (find_view tensors name) (tensor_not_found name)
    values ← view_to_f32 view
    loaded (values, view.shape)

  abbrev pub as_matrix : String → ℕ → ℕ → List ℕ × List ℕ → Loaded Matrix
  as_matrix name rows cols (values, shape) =
      if not (list_eq shape (rows ∷ cols ∷ []))
      then refused (shape_mismatch name (rows ∷ cols ∷ []) shape)
      else of_run (new_matrix values rows cols) (malformed name "matrix data does not fit")

  abbrev pub as_vector : String → ℕ → List ℕ × List ℕ → Loaded (List ℕ)
  as_vector name n (values, shape) =
      if not (list_eq shape (n ∷ []))
      then refused (shape_mismatch name (n ∷ []) shape)
      else loaded values

  unfoldable pub matrix : CheckpointLoader S → String → ℕ → ℕ → Loaded Matrix
  unfolding tensor new_matrix
  matrix l name rows cols = do found ← tensor l name; as_matrix name rows cols found

  unfoldable pub vector : CheckpointLoader S → String → ℕ → Loaded (List ℕ)
  unfolding tensor
  vector l name n = do found ← tensor l name; as_vector name n found

  abbrev pub or_none : Loaded (List ℕ) → Loaded (Option (List ℕ))
  or_none r = r >>= λ v. loaded (some v)

  unfoldable pub optional_vector : CheckpointLoader S → String → ℕ → Loaded (Option (List ℕ))
  unfolding vector
  optional_vector l name n =
      if not (contains l name) then loaded none else or_none (vector l name n)
