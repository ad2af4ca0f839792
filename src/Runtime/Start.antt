-- ===== src/Runtime/Start.antt =====
-- The closure of `start` in runtime/mod.rs: each module gets an identifier and a swap file. `join`
-- is `PathBuf::join`, and `show` the `Display` of `u64`.
use Prim.Native.String.{String, ◌++◌}
use text.Mathlib.TextLemmas.{append_cancel_right}
use wasm_operator.Base.{
  ℕ, zero, suc, ◌+◌, ◌%◌, ◌<◌, Option, none, some, List, [], ◌∷◌, ◌≡◌, ◌≢◌, sym, ap, ◌∙◌, arith,
  get_elem?,
}
use wasm_operator.Runner.{u64_mod}
use wasm_operator.Runtime.Metadata.{ControllerModuleMetadata}

-- A module that is started, with the path of the file that it is swapped out to.
pub record Started : Type 0 where
  pub meta : ControllerModuleMetadata
  pub async_client_id : ℕ
  pub client_swap_path : String

module _ (join : String → String → String) (show : ℕ → String) (swap_path : String) where
  unfoldable pub swap_file : ℕ → String
  swap_file async_client_id = join swap_path ("worker_" ++ (show async_client_id ++ "_mem.bin"))

  -- The commands in the order in which they reach the counter; `fetch_add` wraps.
  unfoldable pub start_all : ℕ → List ControllerModuleMetadata → List Started
  unfolding swap_file
  start_all counter [] = []
  start_all counter (metadata ∷ commands) =
      record { meta = metadata; async_client_id = counter; client_swap_path = swap_file counter }
      ∷ start_all ((counter + 1) % u64_mod) commands

module _ (join : String → String → String) (show : ℕ → String) (swap_path : String)
    (join_lem : (a b : String)
      → join swap_path ("worker_" ++ a) ≡ join swap_path ("worker_" ++ b)
      → a ≡ b)
    (show_lem : (m n : ℕ) → show m ≡ show n → m ≡ n) where
  swap_file-injective :
      (m n : ℕ) → swap_file join show swap_path m ≡ swap_file join show swap_path n → m ≡ n
  unfolding swap_file
  swap_file-injective m n e = show_lem m n (
      append_cancel_right (show m) (show n) "_mem.bin"
        (join_lem (show m ++ "_mem.bin") (show n ++ "_mem.bin") e))

  -- The identifier of the module at a position, while the counter does not wrap.
  start_all-get_elem? :
      (counter : ℕ) (commands : List ControllerModuleMetadata) (i : ℕ) {m : Started}
      → counter + i < u64_mod
      → get_elem? (start_all join show swap_path counter commands) i ≡ some m
      → (m.async_client_id ≡ counter + i)
        × (m.client_swap_path ≡ swap_file join show swap_path (counter + i))
  unfolding start_all
  start_all-get_elem? counter [] zero lt e = cc
  start_all-get_elem? counter [] (suc i) lt e = cc
  start_all-get_elem? counter (metadata ∷ commands) zero {m} lt e =
      let same : counter + 0 ≡ counter = omega arith in rw same (sym (ap id e), sym (ap path e))
    where
      id : Option Started → ℕ
      id none = 0
      id (some x) = x.async_client_id

      path : Option Started → String
      path none = ""
      path (some x) = x.client_swap_path
  start_all-get_elem? counter (metadata ∷ commands) (suc i) {m} lt e =
      let next : (counter + 1) % u64_mod ≡ counter + 1 = omega arith in
      let sum : counter + suc i ≡ counter + 1 + i = omega arith in
      rw sum (start_all-get_elem? (counter + 1) commands i {m = m} (omega arith) (rw (← next) e))

  -- The identifiers and the swap files of the modules differ, as long as fewer than 2^64 are started,
  -- if `show` keeps different numbers apart, and `join` the different paths of relative files, those
  -- that begin with `worker_`.
  pub start_all-distinct :
      (commands : List ControllerModuleMetadata) (i j : ℕ) {m n : Started}
      → get_elem? (start_all join show swap_path 0 commands) i ≡ some m
      → get_elem? (start_all join show swap_path 0 commands) j ≡ some n
      → i < j
      → j < u64_mod
      → (m.async_client_id ≢ n.async_client_id) × (m.client_swap_path ≢ n.client_swap_path)
  start_all-distinct commands i j p q lt small =
      let (id, path) = start_all-get_elem? 0 commands i (omega arith) p in
      let (id', path') = start_all-get_elem? 0 commands j (omega arith) q in
      (
        λ same. absurd (omega (arith, id, id', same)),
        λ same.
            let numbers = swap_file-injective (0 + i) (0 + j) (sym path ∙ same ∙ path') in
            absurd (omega (arith, numbers)),
      )
