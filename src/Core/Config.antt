-- ===== src/Core/Config.antt =====
-- crates/orion-core/src/config.rs: the configuration of the cache, the scheduler, the server and the
-- engine, and the checks made on it before the engine starts.
pub mod Sound
use Prim.Native.String.{String}
use orion_serve_rs.Prelude.{
  ℕ, zero, suc, ◌*◌, Bool, true, false, not, ◌&&◌, ◌||◌, Option, none, some, List, [], ◌∷◌,
  if◌then◌else◌, ◌==◌, ltb, leb,
}

-- crates/orion-core/src/error.rs. `Inconsistent` carries the fixed part of the message.
pub data ConfigError : Type 0 where
  invalid_value : String → String → ConfigError
  not_power_of_two : String → ℕ → ConfigError
  out_of_range : String → ℕ → ℕ → ℕ → ConfigError
  inconsistent : String → ConfigError

-- `if bad { return Err(e); }`, with the checks that follow; `none` is `Ok(())`.
abbrev pub fail_if : Bool → ConfigError → Option ConfigError → Option ConfigError
fail_if bad e rest = if bad then some e else rest

-- `a?; b`
abbrev pub then_check : Option ConfigError → Option ConfigError → Option ConfigError
then_check none rest = rest
then_check (some e) rest = some e

-- What the checks ask of an `f32`.
pub record Float32 (F : Type 0) : Type 0 where
  pub is_finite : F → Bool
  pub le_zero : F → Bool
  pub gt_one : F → Bool

pub record CacheConfig (F : Type 0) : Type 0 where
  pub block_size : ℕ
  pub gpu_memory_utilization : F
  pub num_blocks : Option ℕ
  pub enable_prefix_caching : Bool
  pub num_cpu_swap_blocks : ℕ

-- Whether the number is one of `rounds` doublings from `p` on.
unfoldable pub doubles_to : ℕ → ℕ → ℕ → Bool
doubles_to zero p n = false
doubles_to (suc rounds) p n = if p == n then true else doubles_to rounds (p * 2) n

-- `usize::is_power_of_two`, on 64 bits.
abbrev pub is_power_of_two : ℕ → Bool
is_power_of_two n = doubles_to 64 1 n

abbrev pub is_some_zero : Option ℕ → Bool
is_some_zero none = false
is_some_zero (some n) = n == 0

unfoldable pub validate_cache : {F : Type 0} → Float32 F → CacheConfig F → Option ConfigError
validate_cache f c =
    fail_if ((c.block_size == 0) || not (is_power_of_two c.block_size))
      (not_power_of_two "cache.block_size" c.block_size)
      (fail_if (not (leb 4 c.block_size && leb c.block_size 256))
        (out_of_range "cache.block_size" 4 256 c.block_size)
        (fail_if
          (not (f.is_finite c.gpu_memory_utilization)
            || f.le_zero c.gpu_memory_utilization
            || f.gt_one c.gpu_memory_utilization)
          (invalid_value "cache.gpu_memory_utilization" "must be in (0.0, 1.0]")
          (fail_if (is_some_zero c.num_blocks)
            (invalid_value "cache.num_blocks" "must be at least 1 when set explicitly") none)))

pub data PreemptionMode : Type 0 where
  recompute swap : PreemptionMode

pub record SchedulerConfig : Type 0 where
  pub max_num_seqs : ℕ
  pub max_num_batched_tokens : ℕ
  pub max_model_len : Option ℕ
  pub enable_chunked_prefill : Bool
  pub max_waiting_requests : ℕ
  pub preemption_mode : PreemptionMode
  pub request_timeout_secs : Option ℕ
  pub prioritize_decode : Bool

abbrev pub default_scheduler : SchedulerConfig
default_scheduler = record {
  max_num_seqs = 256;
  max_num_batched_tokens = 8192;
  max_model_len = none;
  enable_chunked_prefill = true;
  max_waiting_requests = 1024;
  preemption_mode = recompute;
  request_timeout_secs = some 300;
  prioritize_decode = true;
}

-- The checks on `max_model_len`, where it is set.
abbrev pub check_model_len : SchedulerConfig → Option ℕ → Option ConfigError → Option ConfigError
check_model_len c none rest = rest
check_model_len c (some len) rest =
    fail_if (len == 0) (invalid_value "scheduler.max_model_len" "must be at least 1 when set") (
      fail_if (not c.enable_chunked_prefill && ltb c.max_num_batched_tokens len)
        (inconsistent "a full-length prompt could never be scheduled") rest)

unfoldable pub validate_scheduler : SchedulerConfig → Option ConfigError
validate_scheduler c =
    fail_if (c.max_num_seqs == 0) (invalid_value "scheduler.max_num_seqs" "must be at least 1") (
      fail_if (c.max_num_batched_tokens == 0)
        (invalid_value "scheduler.max_num_batched_tokens" "must be at least 1")
        (fail_if (ltb c.max_num_batched_tokens c.max_num_seqs)
          (inconsistent "a decode-only step could not give every running sequence one token")
          (check_model_len c c.max_model_len (
            fail_if (c.max_waiting_requests == 0)
              (invalid_value "scheduler.max_waiting_requests" "must be at least 1")
              (fail_if (is_some_zero c.request_timeout_secs)
                (invalid_value "scheduler.request_timeout_secs"
                  "must be at least 1 second when set")
                none)))))

-- The host is a list of code points.
pub record ServerConfig : Type 0 where
  pub host : List ℕ
  pub port : ℕ
  pub max_request_bytes : ℕ
  pub max_concurrent_requests : ℕ
  pub shutdown_grace_secs : ℕ
  pub enable_metrics : Bool

-- Unicode white space, which `str::trim` drops.
abbrev pub is_whitespace : ℕ → Bool
is_whitespace c =
    (leb 9 c && leb c 13)
    || (c == 32)
    || (c == 133)
    || (c == 160)
    || (c == 5760)
    || (leb 8192 c && leb c 8202)
    || (c == 8232)
    || (c == 8233)
    || (c == 8239)
    || (c == 8287)
    || (c == 12288)

-- `host.trim().is_empty()`
unfoldable pub is_blank : List ℕ → Bool
is_blank [] = true
is_blank (c ∷ cs) = if is_whitespace c then is_blank cs else false

unfoldable pub validate_server : ServerConfig → Option ConfigError
validate_server c = fail_if (is_blank c.host) (invalid_value "server.host" "must not be empty") (
    fail_if (c.port == 0) (invalid_value "server.port" "must not be 0") (
      fail_if (ltb c.max_request_bytes 1024)
        (out_of_range "server.max_request_bytes" 1024 18446744073709551615 c.max_request_bytes)
        (fail_if (c.max_concurrent_requests == 0)
          (invalid_value "server.max_concurrent_requests" "must be at least 1") none)))

pub record EngineConfig (F : Type 0) : Type 0 where
  pub cache : CacheConfig F
  pub scheduler : SchedulerConfig
  pub server : ServerConfig

abbrev pub is_swap : PreemptionMode → Bool
is_swap recompute = false
is_swap swap = true

unfoldable pub validate_engine : {F : Type 0} → Float32 F → EngineConfig F → Option ConfigError
unfolding validate_cache validate_scheduler validate_server
validate_engine f c = then_check (validate_cache f c.cache) (
    then_check (validate_scheduler c.scheduler) (
      then_check (validate_server c.server) (
        fail_if (is_swap c.scheduler.preemption_mode && (c.cache.num_cpu_swap_blocks == 0))
          (inconsistent "there is nowhere to swap blocks to") none)))
