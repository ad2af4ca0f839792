-- ===== src/Wasm/Wasmtime.antt =====
-- What modules/wasm.rs uses of the `wasmtime` crate, for one compiled module: its instances, their
-- memory and globals, and a run of the operator's code.
use Prim.Native.String.{String}
use wasm_operator.Base.{ℕ, ◌+◌, ◌*◌, ◌%◌, ◌≤◌, true, All, Option, some, List, ◌≡◌, length}
use wasm_operator.Base.Outcome.{Outcome, Returns}
use wasm_operator.Abi.Command.{Bytes, AsyncResult}
use wasm_operator.Abi.{RequestCodec, HostCall}
use wasm_operator.Abi.Answerable.{IsAnswerable}
use wasm_operator.Wasm.Globals.{Global, is_mutable, update, IsDistinct}

-- The exported functions of an operator that the host calls.
pub data GuestCall : Type 0 where
  start_call : GuestCall
  wakeup_call : AsyncResult → GuestCall

pub record Engine (Inst Val : Type 0) : Type 0 where
  -- A new instance of the module.
  pub fresh : Inst
  -- The data of the export `memory`; none if there is no such export.
  pub memory : Inst → Option Bytes
  pub globals : Inst → List (Global Val)
  -- `Memory::grow`, by a number of pages; none for an error.
  pub grow : ℕ → Inst → Option Inst
  -- Overwrites the whole memory.
  pub write_memory : Bytes → Inst → Inst
  -- `get_global(name).unwrap().set(value)?`
  pub set_global : String → Val → Inst → Outcome Inst
  -- A run of the operator's code, none for a trap, with the host functions that it calls. The
  -- number is the identifier of its first request.
  pub run : GuestCall → ℕ → Inst → Option (Inst × List HostCall)

abbrev pub page : ℕ
page = 0x10000

-- The same memory and globals, or others of that kind.
pub record IsGrown {Inst Val : Type 0} (e : Engine Inst Val) (i : Inst) (size : ℕ) (i' : Inst)
    : Type 0 where
  pub memory : (m : Bytes) × (e.memory i' ≡ some m) × (length m ≡ size)
  pub globals : e.globals i' ≡ e.globals i

-- The documented behaviour of the engine on the instances of a module that exports a memory. A
-- memory is made of whole pages and never shrinks. The last field is a condition on the operator
-- that the module is.
pub record IsEngine {Inst Val Req : Type 0} (e : Engine Inst Val) (codec : RequestCodec Req)
    (IsInst : Inst → Type 0) : Type 0 where
  pub initial : ℕ
  pub fresh_lem : IsInst e.fresh
  pub fresh_memory : (m : Bytes) × (e.memory e.fresh ≡ some m) × (length m ≡ initial)
  pub memory_lem :
      (i : Inst)
      → IsInst i
      → (m : Bytes) × (e.memory i ≡ some m) × (length m % page ≡ 0) × (initial ≤ length m)
  pub grow_lem :
      (n : ℕ) (i : Inst) {m : Bytes} {i' : Inst}
      → IsInst i
      → e.memory i ≡ some m
      → e.grow n i ≡ some i'
      → IsInst i' × IsGrown e i (length m + n * page) i'
  pub write_memory_lem :
      (b : Bytes) (i : Inst) {m : Bytes}
      → IsInst i
      → e.memory i ≡ some m
      → length b ≡ length m
      → IsInst (e.write_memory b i)
        × (e.memory (e.write_memory b i) ≡ some b)
        × (e.globals (e.write_memory b i) ≡ e.globals i)
  pub globals_lem : (i : Inst) → IsInst i → IsDistinct (e.globals i)
  pub is_mutable_same :
      (i j : Inst) (n : String)
      → IsInst i
      → IsInst j
      → is_mutable n (e.globals i) ≡ is_mutable n (e.globals j)
  -- Setting a mutable global may be refused, for a value of another type.
  pub set_global_lem :
      (n : String) (v : Val) (i : Inst)
      → IsInst i
      → is_mutable n (e.globals i) ≡ true
      → Returns
          (λ (i' : Inst).
            IsInst i' × (e.memory i' ≡ e.memory i) × (e.globals i' ≡ update n v (e.globals i)))
          (e.set_global n v i)
  pub run_lem :
      (call : GuestCall) (k : ℕ) (i : Inst) {i' : Inst} {calls : List HostCall}
      → IsInst i
      → e.run call k i ≡ some (i', calls)
      → IsInst i'
  -- Of the operator, and not of the engine: what it hands over to the host lies in its memory, and
  -- holds a request whose URI has a path.
  pub answerable :
      (call : GuestCall) (k : ℕ) (i : Inst) {i' : Inst} {calls : List HostCall}
      → IsInst i
      → e.run call k i ≡ some (i', calls)
      → All (IsAnswerable codec) calls
