-- ===== src/Wasm/Held.antt =====
-- The permits that a runtime of modules/wasm.rs holds in each of its states.
use wasm_operator.Base.{
  ℕ, ◌≤◌, ◌<◌, Bool, true, false, Option, none, some, ◌≡◌, refl, arith, if◌then◌else◌,
}
use wasm_operator.Abi.{RequestCodec}
use wasm_operator.Abi.Command.{Bytes}
use wasm_operator.Wasm.Wasmtime.{Engine}
use wasm_operator.Wasm.{
  MaybeInst, locked, not_inst, uns_inst, got_inst, uninstantiate_job, start_job, wakeup_job,
  load_job, Work, unpolled, acquiring, writing, WasmRuntime, Permit, granted, waits, closed, Reply,
}
use wasm_operator.Wasm.Machine.{IsThere, IsNew, IsLocked, GoodWork}
use wasm_operator.Wasm.Permits.{permits_of, to_load, acquired_by, acquired}

module _ {Inst Val : Type 0} where
  abbrev pub is_got : MaybeInst Inst Val → Bool
  is_got (got_inst store) = true
  is_got (not_inst ctx) = false
  is_got (uns_inst ctx snapshot) = false
  is_got locked = false

  -- The instance is there, or its memory is being written to the swap file.
  abbrev pub has_instance : Option (Work Inst Val) → MaybeInst Inst Val → Bool
  has_instance none inner = is_got inner
  has_instance (some (unpolled job)) inner = is_got inner
  has_instance (some (acquiring job ctx snapshot)) inner = is_got inner
  has_instance (some (writing store mem)) inner = true

module _ {Inst Val Req : Type 0} (e : Engine Inst Val) (codec : RequestCodec Req)
    (IsInst : Inst → Type 0) where
  IsThere-permits :
      (inner : MaybeInst Inst Val) (permits : ℕ) (file : Option Bytes)
      → IsThere e codec IsInst inner permits file
      → permits ≡ (if is_got inner then 1 else 0)
  IsThere-permits (got_inst store) permits file (i, p) = p
  IsThere-permits (uns_inst ctx snapshot) permits file (i, p) = p
  IsThere-permits locked permits file h = elim h [ ]
  IsThere-permits (not_inst ctx) permits file h = elim h [ ]

  IsNew-permits :
      (inner : MaybeInst Inst Val) (permits : ℕ)
      → IsNew e codec IsInst inner
      → permits ≡ 0
      → permits ≡ (if is_got inner then 1 else 0)
  IsNew-permits (not_inst ctx) permits h p = p
  IsNew-permits (got_inst store) permits h p = elim h [ ]
  IsNew-permits (uns_inst ctx snapshot) permits h p = elim h [ ]
  IsNew-permits locked permits h p = elim h [ ]

  IsLocked-permits :
      (inner : MaybeInst Inst Val) (permits : ℕ)
      → IsLocked e codec IsInst inner
      → permits ≡ 0
      → permits ≡ (if is_got inner then 1 else 0)
  IsLocked-permits locked permits h p = p
  IsLocked-permits (got_inst store) permits h p = elim h [ ]
  IsLocked-permits (uns_inst ctx snapshot) permits h p = elim h [ ]
  IsLocked-permits (not_inst ctx) permits h p = elim h [ ]

  -- A runtime in one of its states holds one permit if its instance is in memory, and none if not.
  pub GoodWork-permits :
      (work : Option (Work Inst Val)) (inner : MaybeInst Inst Val) (flag : Bool) (permits : ℕ)
      (file : Option Bytes)
      → GoodWork e codec IsInst work inner flag permits file
      → permits ≡ (if has_instance work inner then 1 else 0)
  GoodWork-permits none inner flag permits file (h, f) = IsThere-permits inner permits file h
  GoodWork-permits (some (unpolled uninstantiate_job)) inner flag permits file (h, f) =
      IsThere-permits inner permits file h
  GoodWork-permits (some (unpolled (wakeup_job result))) inner flag permits file (h, f) =
      IsThere-permits inner permits file h
  GoodWork-permits (some (unpolled load_job)) inner flag permits file (h, f) =
      IsThere-permits inner permits file h
  GoodWork-permits (some (unpolled start_job)) inner flag permits file (h, f, p) =
      IsNew-permits inner permits h p
  GoodWork-permits (some (acquiring job ctx snapshot)) inner flag permits file (h, f, p, l) =
      IsLocked-permits inner permits l p
  GoodWork-permits (some (writing store mem)) inner flag permits file (is, m, f, p, l) = p

to_load-le :
    {Inst Val : Type 0} (permit : Permit) (inner : MaybeInst Inst Val)
    → to_load permit inner ≤ permits_of permit
to_load-le permit (uns_inst ctx snapshot) = omega arith
to_load-le permit (not_inst ctx) = omega arith
to_load-le permit (got_inst store) = omega arith
to_load-le permit locked = omega arith

-- A poll takes at most the permit that the semaphore grants.
acquired_by-le :
    {Inst Val : Type 0} (permit : Permit) (work : Work Inst Val) (inner : MaybeInst Inst Val)
    → acquired_by permit work inner ≤ permits_of permit
unfolding acquired_by
acquired_by-le permit (acquiring job ctx snapshot) inner = omega arith
acquired_by-le permit (unpolled uninstantiate_job) inner = omega arith
acquired_by-le permit (writing store mem) inner = omega arith
acquired_by-le permit (unpolled start_job) (not_inst ctx) = omega arith
acquired_by-le permit (unpolled start_job) (uns_inst ctx snapshot) = omega arith
acquired_by-le permit (unpolled start_job) (got_inst store) = omega arith
acquired_by-le permit (unpolled start_job) locked = omega arith
acquired_by-le permit (unpolled (wakeup_job result)) inner = to_load-le permit inner
acquired_by-le permit (unpolled load_job) inner = to_load-le permit inner

acquired-le :
    {Inst Val : Type 0} (reply : Reply) (w : WasmRuntime Inst Val)
    → acquired reply w ≤ permits_of reply.permit
unfolding acquired
acquired-le {Inst} {Val} reply w = by_work w.wasm_work
  where
    by_work :
        (x : Option (Work Inst Val))
        → (elim x [ none ↦ 0 | some work ↦ acquired_by reply.permit work w.inner ])
          ≤ permits_of reply.permit
    by_work none = omega arith
    by_work (some work) = acquired_by-le reply.permit work w.inner

permits_of-le :
    (permit : Permit) (available : ℕ)
    → (permit ≡ granted → 0 < available)
    → permits_of permit ≤ available
permits_of-le granted available h = h refl
permits_of-le waits available h = omega arith
permits_of-le closed available h = omega arith

-- The semaphore has what a poll takes, if it grants a permit only when it has one.
pub acquired-available :
    {Inst Val : Type 0} (reply : Reply) (w : WasmRuntime Inst Val) (available : ℕ)
    → (reply.permit ≡ granted → 0 < available)
    → acquired reply w ≤ available
acquired-available reply w available h =
    omega (arith, acquired-le reply w, permits_of-le reply.permit available h)
