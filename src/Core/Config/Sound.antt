-- ===== src/Core/Config/Sound.antt =====
-- What the checks of crates/orion-core/src/config.rs accept.
use orion_serve_rs.Prelude.{
  ℕ, zero, suc, ◌*◌, ◌≤◌, ◌<◌, ◌≡◌, ◌≢◌, ◌↔◌, refl, sym, ◌∙◌, true, false, ◌&&◌, Option, none, some,
  arith, ◌==◌, Option-cases, Bool-cases, inl, inr,
}
use Prim.Native.Nat.{◌^◌}
use native.Mathlib.Nat.{pow-suc}
use orion_serve_rs.Core.Config.{
  ConfigError, inconsistent, fail_if, Float32, CacheConfig, doubles_to, is_power_of_two,
  validate_cache, SchedulerConfig, validate_scheduler, EngineConfig, validate_engine, is_swap,
  validate_server, recompute, swap, PreemptionMode,
}

-- The documented conditions on the scheduler's section.
pub record SchedulerSound (c : SchedulerConfig) : Type 0 where
  pub seqs : 0 < c.max_num_seqs
  pub budget : c.max_num_seqs ≤ c.max_num_batched_tokens
  pub model_len :
      (len : ℕ)
      → c.max_model_len ≡ some len
      → (0 < len) × (c.enable_chunked_prefill ≡ false → len ≤ c.max_num_batched_tokens)
  pub waiting : 0 < c.max_waiting_requests
  pub timeout : c.request_timeout_secs ≢ some 0

-- `SchedulerConfig::validate` accepts a section exactly if there is a sequence slot, the token
-- budget gives each slot a token, a set model length is positive and without chunking within the
-- budget, a request may wait, and a set timeout is not zero.
pub validate_scheduler-SchedulerSound :
    (c : SchedulerConfig) → (validate_scheduler c ≡ none) ↔ SchedulerSound c
unfolding validate_scheduler
validate_scheduler-SchedulerSound c = (accepted, sound)
  where
    accepted : validate_scheduler c ≡ none → SchedulerSound c
    accepted e = record {
      seqs = ground arith;
      budget = ground arith;
      model_len = λ len set. ground arith;
      waiting = ground arith;
      timeout = λ set. ground arith;
    }

    sound : SchedulerSound c → validate_scheduler c ≡ none
    sound v = elim (Option-cases c.max_model_len) [
      | inl unset ↦ ground (arith, v.seqs, v.budget, v.waiting, v.timeout)
      | inr (len, set) ↦
          let (pos, fits) = v.model_len len set in
          ground (arith, v.seqs, v.budget, v.waiting, v.timeout)
    ]

-- The numbers that doubling reaches.
doubles_to-power :
    (rounds p n : ℕ) → doubles_to rounds p n ≡ true → (k : ℕ) × (k < rounds) × (n ≡ p * 2 ^ k)
unfolding doubles_to
doubles_to-power zero p n e = absurd (ground arith)
doubles_to-power (suc rounds) p n e = elim (Bool-cases (p == n)) [
  | inl same ↦ (0, omega arith, ground arith)
  | inr other ↦
      let (k, lt, e') = doubles_to-power rounds (p * 2) n (ground arith) in
      (suc k, omega arith, grind (arith, pow-suc 2 k, e'))
]

power-doubles_to : (rounds p k : ℕ) → k < rounds → doubles_to rounds p (p * 2 ^ k) ≡ true
unfolding doubles_to
power-doubles_to zero p k lt = absurd (omega arith)
power-doubles_to (suc rounds) p zero lt = ground arith
power-doubles_to (suc rounds) p (suc k) lt =
    let same : p * 2 ^ suc k ≡ p * 2 * 2 ^ k = grind (arith, pow-suc 2 k) in
    rw same (ground (arith, power-doubles_to rounds (p * 2) k (omega arith)))

-- The documented conditions on the cache's section: the block size is one of the powers of two of a
-- 64-bit number, from 4 to 256.
pub record CacheSound {F : Type 0} (f : Float32 F) (c : CacheConfig F) : Type 0 where
  pub power : (k : ℕ) × (k < 64) × (c.block_size ≡ 2 ^ k)
  pub least : 4 ≤ c.block_size
  pub greatest : c.block_size ≤ 256
  pub finite : f.is_finite c.gpu_memory_utilization ≡ true
  pub positive : f.le_zero c.gpu_memory_utilization ≡ false
  pub fraction : f.gt_one c.gpu_memory_utilization ≡ false
  pub some_blocks : c.num_blocks ≢ some 0

one_mul : (n : ℕ) → 1 * n ≡ n
one_mul n = omega arith

check_swap : ℕ → PreemptionMode → Option ConfigError
check_swap blocks mode =
    fail_if (is_swap mode && (blocks == 0)) (inconsistent "there is nowhere to swap blocks to") none

swap_passes :
    (blocks : ℕ) (mode : PreemptionMode)
    → (mode ≡ swap → 0 < blocks)
    → check_swap blocks mode ≡ none
unfolding check_swap
swap_passes blocks recompute swaps = refl
swap_passes blocks swap swaps = ground (arith, swaps refl)

module _ {F : Type 0} (f : Float32 F) where
  -- For any tests of a 32-bit float, `CacheConfig::validate` accepts a section exactly if the
  -- block size is one of the 64 powers of two of a machine word and from 4 to 256, the memory
  -- fraction is finite and in (0, 1], and a set number of blocks is not zero.
  pub validate_cache-CacheSound : (c : CacheConfig F) → (validate_cache f c ≡ none) ↔ CacheSound f c
  unfolding validate_cache
  validate_cache-CacheSound c = (accepted, sound)
    where
      accepted : validate_cache f c ≡ none → CacheSound f c
      accepted e =
          let (k, lt, is_power) = doubles_to-power 64 1 c.block_size (ground arith) in
          record {
            power = (k, lt, is_power ∙ one_mul (2 ^ k));
            least = ground arith;
            greatest = ground arith;
            finite = ground arith;
            positive = ground arith;
            fraction = ground arith;
            some_blocks = λ set. ground arith;
          }

      sound : CacheSound f c → validate_cache f c ≡ none
      sound v =
          let (k, lt, e) = v.power in
          let same : 1 * 2 ^ k ≡ c.block_size = one_mul (2 ^ k) ∙ sym e in
          let is_power : is_power_of_two c.block_size ≡ true =
            rw same at (power-doubles_to 64 1 k lt) in
          ground
            (arith, is_power, v.least, v.greatest, v.finite, v.positive, v.fraction, v.some_blocks)

  -- Each section is right, and there is room to swap to where swapping is asked for.
  abbrev pub EngineSound : EngineConfig F → Type 0
  EngineSound c =
      CacheSound f c.cache
      × SchedulerSound c.scheduler
      × (validate_server c.server ≡ none)
      × (c.scheduler.preemption_mode ≡ swap → 0 < c.cache.num_cpu_swap_blocks)

  -- For any tests of a 32-bit float, `EngineConfig::validate` accepts a configuration exactly if
  -- the cache's and the scheduler's sections meet their documented conditions, the server's
  -- section is accepted, and a swapping scheduler has swap blocks.
  pub validate_engine-EngineSound :
      (c : EngineConfig F) → (validate_engine f c ≡ none) ↔ EngineSound c
  unfolding validate_engine check_swap
  validate_engine-EngineSound c = (accepted, sound)
    where
      accepted : validate_engine f c ≡ none → EngineSound c
      accepted e = (
        (validate_cache-CacheSound c.cache).0 (ground arith),
        (validate_scheduler-SchedulerSound c.scheduler).0 (ground arith),
        ground arith,
        λ swaps. ground arith,
      )

      sound : EngineSound c → validate_engine f c ≡ none
      sound (cache, scheduler, server, swaps) = rw ((validate_cache-CacheSound c.cache).1 cache) (
          rw ((validate_scheduler-SchedulerSound c.scheduler).1 scheduler)
            (rw server (swap_passes c.cache.num_cpu_swap_blocks c.scheduler.preemption_mode swaps)))
