-- ===== src/Core/Traits.antt =====
-- crates/orion-core/src/traits.rs: the cache as the scheduler sees it. A method on `&mut self`
-- returns the cache after it.
use orion_serve_rs.Prelude.{ℕ, ◌≡◌, Bool, true, false, List, if◌then◌else◌, ◌==◌}
use orion_serve_rs.Core.Error.{Result, ok, err}

pub record KvCacheManagerLike (C : Type 0) : Type 0 where
  pub blocks_needed_for : C → ℕ → ℕ
  pub total_blocks : C → ℕ
  pub free_blocks : C → ℕ
  pub can_allocate : C → ℕ → Bool
  pub allocate : C → ℕ → List ℕ → Result (Unit {0}) × C
  pub append_token : C → ℕ → Result (Unit {0}) × C
  pub free : C → ℕ → C
  pub commit_prefill : C → ℕ → List ℕ → C

-- Whether a call succeeded.
abbrev pub is_ok {ℓ} : {A : Type ℓ} → Result A → Bool
is_ok (ok a) = true
is_ok (err e) = false

-- What the trait documents about which sequences hold blocks.
pub record CacheLaws {C : Type 0} (k : KvCacheManagerLike C) : Type 0 where
  pub holds : C → ℕ → Bool
  pub allocate_holds :
      (c : C) (seq : ℕ) (prompt : List ℕ) (a : ℕ)
      → holds (k.allocate c seq prompt).1 a ≡ (
          if is_ok (k.allocate c seq prompt).0
          then (if seq == a then true else holds c a)
          else holds c a)
  pub append_token_holds : (c : C) (seq a : ℕ) → holds (k.append_token c seq).1 a ≡ holds c a
  pub free_holds :
      (c : C) (seq a : ℕ) → holds (k.free c seq) a ≡ (if seq == a then false else holds c a)
  pub commit_prefill_holds :
      (c : C) (seq : ℕ) (prompt : List ℕ) (a : ℕ)
      → holds (k.commit_prefill c seq prompt) a ≡ holds c a
