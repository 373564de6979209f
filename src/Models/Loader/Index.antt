-- ===== src/Models/Loader/Index.antt =====
-- Tensors that the loader gives (crates/orion-models/src/loader.rs) have the shape that was asked for.
use Prim.Native.String.{String}
use orion_serve_rs.Prelude.{
  ℕ, zero, suc, ◌*◌, ◌≡◌, refl, ap, ◌∙◌, true, false, not, Option, none, some, List, [], ◌∷◌, arith,
  list_eq, length, get_elem?,
}
use orion_serve_rs.Core.Error.{ModelError, tensor_not_found, malformed}
use orion_serve_rs.Models.Run.{Run, Returns, returns, agrees}
use orion_serve_rs.Models.Loaded.{
  Loaded, ◌>>=◌, found_or, Gives, gives, nothing, Gives-bind, Gives-if,
}
use orion_serve_rs.Models.Tensor.{wrong_bias}
use orion_serve_rs.Models.Tensor.Shape.{Shaped, HasLength, new_matrix-Shaped}
use orion_serve_rs.Models.Loader.{
  Dtype, f32, f16, bf16, other, TensorView, Format, lookup, find_view, from_le_bytes_4,
  from_le_bytes_2, CheckpointLoader, widened, view_to_f32, contains, tensor, of_run, matrix, vector,
  optional_vector,
}

abbrev pub product : List ℕ → ℕ
product [] = 1
product (n ∷ ns) = n * product ns

abbrev pub element_size : Dtype → ℕ
element_size f32 = 4
element_size f16 = 2
element_size bf16 = 2
element_size (other d) = 0

-- `safetensors` refuses a file in which a tensor has more or fewer bytes than its shape and data type
-- say; of the data types that the engine reads, this is what that means.
abbrev pub SizedView : TensorView → Type 0
SizedView v = length v.bytes ≡ product v.shape * element_size v.dtype

pub record Checks {S : Type 0} (fmt : Format S) : Type 0 where
  pub sized :
      (s : S) (tensors : List (String × TensorView)) (name : String) (view : TensorView)
      → fmt.deserialize s ≡ some tensors
      → find_view tensors name ≡ some view
      → SizedView view

length-from_le_bytes_4 :
    (n : ℕ) (bytes : List ℕ) → length bytes ≡ n * 4 → length (from_le_bytes_4 bytes) ≡ n
length-from_le_bytes_4 zero [] e = refl
length-from_le_bytes_4 (suc n) (a ∷ b ∷ c ∷ d ∷ rest) e =
    ap suc (length-from_le_bytes_4 n rest (omega arith))
length-from_le_bytes_4 zero (a ∷ rest) e = absurd (omega arith)
length-from_le_bytes_4 (suc n) [] e = absurd (omega arith)
length-from_le_bytes_4 (suc n) (a ∷ []) e = absurd (omega arith)
length-from_le_bytes_4 (suc n) (a ∷ b ∷ []) e = absurd (omega arith)
length-from_le_bytes_4 (suc n) (a ∷ b ∷ c ∷ []) e = absurd (omega arith)

length-from_le_bytes_2 :
    (widen : ℕ → ℕ) (n : ℕ) (bytes : List ℕ)
    → length bytes ≡ n * 2
    → length (from_le_bytes_2 widen bytes) ≡ n
length-from_le_bytes_2 widen zero [] e = refl
length-from_le_bytes_2 widen (suc n) (a ∷ b ∷ rest) e =
    ap suc (length-from_le_bytes_2 widen n rest (omega arith))
length-from_le_bytes_2 widen zero (a ∷ rest) e = absurd (omega arith)
length-from_le_bytes_2 widen (suc n) [] e = absurd (omega arith)
length-from_le_bytes_2 widen (suc n) (a ∷ []) e = absurd (omega arith)

list_eq→eq : (xs ys : List ℕ) → list_eq xs ys ≡ true → xs ≡ ys
list_eq→eq [] [] e = refl
list_eq→eq [] (y ∷ ys) e = cc
list_eq→eq (x ∷ xs) [] e = cc
list_eq→eq (x ∷ xs) (y ∷ ys) e = ground (arith, list_eq→eq xs ys)

-- The values of a tensor are as many as its shape says.
abbrev Filled : List ℕ × List ℕ → Type 0
Filled found = length found.0 ≡ product found.1

pub of_run-Gives :
    {A : Type 0} {P : A → Type 0} {r : Run A} (e : ModelError) → Returns P r → Gives P (of_run r e)
of_run-Gives e (returns p) = gives p

module _ {S : Type 0} (fmt : Format S) (checks : Checks fmt) where
  widened-HasLength :
      (d : Dtype) (n : ℕ) (bytes : List ℕ)
      → length bytes ≡ n * element_size d
      → Gives (HasLength n) (widened fmt d bytes)
  widened-HasLength f32 n bytes h = gives (length-from_le_bytes_4 n bytes h)
  widened-HasLength f16 n bytes h = gives (length-from_le_bytes_2 fmt.f16_to_f32 n bytes h)
  widened-HasLength bf16 n bytes h = gives (length-from_le_bytes_2 fmt.bf16_to_f32 n bytes h)
  widened-HasLength (other d) n bytes h = nothing

  found_or-Gives :
      {A B : Type 0} {Q : B → Type 0} (o : Option A) (e : ModelError) {k : A → Loaded B}
      → ((a : A) → o ≡ some a → Gives Q (k a))
      → Gives Q (found_or o e >>= k)
  found_or-Gives none e next = nothing
  found_or-Gives (some a) e next = next a refl

  tensor-Filled : (l : CheckpointLoader S) (name : String) → Gives Filled (tensor fmt l name)
  unfolding tensor view_to_f32
  tensor-Filled l name =
      let missing = tensor_not_found name in
      found_or-Gives (lookup l.index name) missing λ i _.
        found_or-Gives (get_elem? l.shards i) missing λ shard _.
          found_or-Gives (fmt.deserialize shard.1)
            (malformed shard.0 "the file is not a safetensors file")
            λ tensors is. found_or-Gives (find_view tensors name) missing λ view at.
              Gives-bind
                (widened-HasLength view.dtype (product view.shape) view.bytes
                  (checks.sized shard.1 tensors name view is at))
                λ values l. gives l

  pub matrix-Shaped :
      (l : CheckpointLoader S) (name : String) (rows cols : ℕ)
      → Gives (Shaped rows cols) (matrix fmt l name rows cols)
  unfolding matrix
  matrix-Shaped l name rows cols = Gives-bind (tensor-Filled l name) λ found filled.
      Gives-if (not (list_eq found.1 (rows ∷ cols ∷ []))) (λ _. nothing)
        λ same.
          let shape : found.1 ≡ rows ∷ cols ∷ [] = list_eq→eq _ _ (ground (arith, same)) in
          of_run-Gives _
            (new_matrix-Shaped found.0 rows cols (filled ∙ ap product shape ∙ (omega arith)))

  pub vector-HasLength :
      (l : CheckpointLoader S) (name : String) (n : ℕ) → Gives (HasLength n) (vector fmt l name n)
  unfolding vector
  vector-HasLength l name n = Gives-bind (tensor-Filled l name) λ found filled.
      Gives-if (not (list_eq found.1 (n ∷ []))) (λ _. nothing)
        λ same.
          let shape : found.1 ≡ n ∷ [] = list_eq→eq _ _ (ground (arith, same)) in
          gives (filled ∙ ap product shape ∙ (omega arith))

  pub optional_vector-HasLength :
      (l : CheckpointLoader S) (name : String) (n : ℕ)
      → Gives (λ b. wrong_bias b n ≡ false) (optional_vector fmt l name n)
  unfolding optional_vector
  optional_vector-HasLength l name n =
      Gives-if (not (contains fmt l name)) (λ _. gives refl)
        λ _. Gives-bind (vector-HasLength l name n) λ v h. gives (agrees h)
