-- ===== src/Models/Backend.antt =====
-- crates/orion-models/src/backend.rs and the devices of crates/orion-core/src/traits.rs: the backend that
-- executes on the host.
use Prim.Native.String.{String, ◌++◌}
use orion_serve_rs.Prelude.{ℕ, Bool, true, false, Option, none}
use orion_serve_rs.Core.Error.{Result, ok}
use orion_serve_rs.Core.Model.{DType, f32}

pub data Device : Type 0 where
  cpu : Device
  cuda : ℕ → Device

abbrev pub is_cpu : Device → Bool
is_cpu cpu = true
is_cpu (cuda ordinal) = false

abbrev pub as_str : Device → String
as_str cpu = "cpu"
as_str (cuda ordinal) = "cuda"

-- `Display`, with the decimal digits of a number as an argument.
abbrev pub display : (ℕ → String) → Device → String
display usize_to_string cpu = "cpu"
display usize_to_string (cuda ordinal) = "cuda:" ++ usize_to_string ordinal

pub data CpuBackend : Type 0 where
  cpu_backend : CpuBackend

abbrev pub name : CpuBackend → String
name cpu_backend = "cpu"

abbrev pub device : CpuBackend → Device
device cpu_backend = cpu

abbrev pub total_memory : CpuBackend → Option ℕ
total_memory cpu_backend = none

abbrev pub available_memory : CpuBackend → Option ℕ
available_memory cpu_backend = none

abbrev pub synchronize : CpuBackend → Result (Unit {0})
synchronize cpu_backend = ok tt

abbrev pub supports_dtype : CpuBackend → DType → Bool
supports_dtype cpu_backend f32 = true
supports_dtype cpu_backend _ = false
