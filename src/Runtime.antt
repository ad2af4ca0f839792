-- ===== src/Runtime.antt =====
-- pkg/controller/src/runtime and modules/metadata.rs: from the configuration file to the modules
-- that run.
pub mod Metadata
pub mod Cache
pub mod Start
pub mod Pool
pub mod Main
mod Tests
use wasm_operator.Base.{ℕ, Bool, if◌then◌else◌}

-- `COMPILE_WITH_UNINSTANTIATE` is set when the program is built.
unfoldable pub pool_size : Bool → ℕ
pool_size compile_with_uninstantiate = if compile_with_uninstantiate then 100 else 1000
