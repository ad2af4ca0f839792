-- ===== src/Wasm/Machine.antt =====
-- The states that a runtime of modules/wasm.rs goes through, between a job and the next.
use wasm_operator.Base.{ℕ, Bool, true, false, not, Option, none, some, ◌≡◌}
use wasm_operator.Base.Outcome.{is_ready}
use wasm_operator.Abi.{RequestCodec}
use wasm_operator.Abi.Command.{Bytes}
use wasm_operator.Wasm.Wasmtime.{Engine}
use wasm_operator.Wasm.{
  Snapshot, MaybeInst, locked, not_inst, uns_inst, got_inst, Job, uninstantiate_job, start_job,
  wakeup_job, load_job, Work, unpolled, acquiring, writing, WasmRuntime,
}
use wasm_operator.Wasm.Jobs.{Polled}
use wasm_operator.Wasm.Restore.{saved}

module _ {Inst Val Req : Type 0} (e : Engine Inst Val) (codec : RequestCodec Req)
    (IsInst : Inst → Type 0) where
  -- The snapshot and the file on disk are those of one instance.
  pub record IsSwapped (snapshot : Snapshot Val) (file : Option Bytes) : Type 0 where
    pub old : Inst
    pub m : Bytes
    pub is_inst : IsInst old
    pub memory : e.memory old ≡ some m
    pub snapshot_eq : snapshot ≡ saved e old m
    pub file_eq : file ≡ some m

  -- The instance is in memory, with a permit, or swapped out, without one.
  abbrev pub IsThere : MaybeInst Inst Val → ℕ → Option Bytes → Type 0
  IsThere (got_inst store) permits file = IsInst store.inst × (permits ≡ 1)
  IsThere (uns_inst ctx snapshot) permits file = IsSwapped snapshot file × (permits ≡ 0)
  IsThere locked permits file = ⊥
  IsThere (not_inst ctx) permits file = ⊥

  abbrev pub is_out : MaybeInst Inst Val → Bool
  is_out (uns_inst ctx snapshot) = true
  is_out (got_inst store) = false
  is_out locked = false
  is_out (not_inst ctx) = false

  abbrev pub IsNew : MaybeInst Inst Val → Type 0
  IsNew (not_inst ctx) = Unit
  IsNew (got_inst store) = ⊥
  IsNew (uns_inst ctx snapshot) = ⊥
  IsNew locked = ⊥

  abbrev pub IsLocked : MaybeInst Inst Val → Type 0
  IsLocked locked = Unit
  IsLocked (not_inst ctx) = ⊥
  IsLocked (got_inst store) = ⊥
  IsLocked (uns_inst ctx snapshot) = ⊥

  abbrev pub IsWaiting : Job → Option (Snapshot Val) → Option Bytes → Type 0
  IsWaiting uninstantiate_job snapshot file = ⊥
  IsWaiting start_job none file = Unit
  IsWaiting start_job (some snapshot) file = ⊥
  IsWaiting (wakeup_job result) none file = ⊥
  IsWaiting (wakeup_job result) (some snapshot) file = IsSwapped snapshot file
  IsWaiting load_job none file = ⊥
  IsWaiting load_job (some snapshot) file = IsSwapped snapshot file

  -- What holds of the other fields when the runtime has this work to do.
  abbrev pub GoodWork :
      Option (Work Inst Val) → MaybeInst Inst Val → Bool → ℕ → Option Bytes → Type 0
  GoodWork none inner flag permits file = IsThere inner permits file × (flag ≡ is_out inner)
  GoodWork (some (unpolled uninstantiate_job)) inner flag permits file =
      IsThere inner permits file × (flag ≡ true)
  GoodWork (some (unpolled start_job)) inner flag permits file =
      IsNew inner × (flag ≡ false) × (permits ≡ 0)
  GoodWork (some (unpolled (wakeup_job result))) inner flag permits file =
      IsThere inner permits file × (flag ≡ false)
  GoodWork (some (unpolled load_job)) inner flag permits file =
      IsThere inner permits file × (flag ≡ false)
  GoodWork (some (acquiring job ctx snapshot)) inner flag permits file =
      IsWaiting job snapshot file × (flag ≡ false) × (permits ≡ 0) × IsLocked inner
  GoodWork (some (writing store mem)) inner flag permits file =
      IsInst store.inst
      × (e.memory store.inst ≡ some mem)
      × (flag ≡ true)
      × (permits ≡ 1)
      × IsLocked inner

  abbrev pub Good : WasmRuntime Inst Val → Type 0
  Good w = GoodWork w.wasm_work w.inner w.uninstantiating w.permits w.swap_file

  abbrev pub busy : WasmRuntime Inst Val → Bool
  busy w = elim (w.wasm_work) [ none ↦ false | some work ↦ true ]

  -- After a poll of a runtime whose flag was `flag`.
  pub record IsPolled (flag : Bool) (t : Polled e codec) : Type 0 where
    pub good : Good t.1
    pub still : busy t.1 ≡ not (is_ready t.0)
    pub same : t.1.uninstantiating ≡ flag
