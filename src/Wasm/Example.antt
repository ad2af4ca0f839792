-- ===== src/Wasm/Example.antt =====
-- A small engine: instances with a memory of bytes, and with a mutable and a constant global. The
-- operator in it asks for two delays and a request when it starts, and nothing when it is woken up.
use Prim.Native.String.{String}
use text.Mathlib.Text.{◌==◌}
use wasm_operator.Base.{
  some_injective, ℕ, zero, suc, ◌+◌, ◌*◌, ◌%◌, true, false, none, some, List, [], ◌∷◌, ◌++◌, ◌≡◌,
  refl, All, ap, ◌∙◌, arith, length, length-append, if◌then◌else◌, inl, inr, Bool-cases,
}
use wasm_operator.Base.Outcome.{ok, failed, Returns, returns}
use wasm_operator.Abi.Command.{Bytes}
use wasm_operator.Abi.{HostCall, RequestCodec, delay_call, request_call, slice}
use wasm_operator.Abi.Answerable.{IsAnswerable}
use wasm_operator.Wasm.Globals.{Global, value_of, is_mutable, update, IsDistinct}
use wasm_operator.Wasm.Wasmtime.{
  Engine, IsEngine, GuestCall, start_call, wakeup_call, page, IsGrown,
}
use mathlib.Core.Path.{subst}

pub record Example : Type 0 where
  pub mem : Bytes
  pub globals : List (Global ℕ)

abbrev pub zeros : ℕ → Bytes
zeros zero = []
zeros (suc n) = 0 ∷ zeros n

abbrev pub globals_of : ℕ → ℕ → List (Global ℕ)
globals_of stack base =
    record { name = "__stack_pointer"; mutable = true; value = stack }
    ∷ record { name = "__memory_base"; mutable = false; value = base }
    ∷ []

abbrev pub requests_of : GuestCall → List HostCall
requests_of start_call = delay_call 10 ∷ delay_call 5000 ∷ request_call (3 ∷ 4 ∷ 5 ∷ []) 1 1 0 ∷ []
requests_of (wakeup_call result) = []

abbrev pub example : Engine Example ℕ
example = record {
  fresh = record { mem = []; globals = globals_of 7 3 };
  memory = λ i. some i.mem;
  globals = λ i. i.globals;
  grow = λ n i. some (record i { mem = i.mem ++ zeros (n * page) });
  write_memory = λ b i. record i { mem = b };
  set_global = λ n v i.
      if is_mutable n i.globals then ok (record i { globals = update n v i.globals }) else failed;
  run = λ call k i. some (i, requests_of call);
}

-- One kind of request, of any bytes; its URI has a path.
abbrev pub one_request : RequestCodec (Unit {0})
one_request = record {
  decode = λ bytes. elim bytes [ [] ↦ none | byte ∷ rest ↦ some tt ];
  has_path = λ req. true;
}

pub record IsExample (i : Example) : Type 0 where
  pub stack : ℕ
  pub base : ℕ
  pub pages : length i.mem % page ≡ 0
  pub globals : i.globals ≡ globals_of stack base

pub length-zeros : (n : ℕ) → length (zeros n) ≡ n
length-zeros zero = refl
length-zeros (suc n) = ground (arith, length-zeros n)

globals_of-IsDistinct : (stack base : ℕ) → IsDistinct (globals_of stack base)
unfolding value_of
globals_of-IsDistinct stack base = (refl, (refl, tt))

same_mutable :
    (n : String) (s b s' b' : ℕ) → is_mutable n (globals_of s b) ≡ is_mutable n (globals_of s' b')
unfolding is_mutable
same_mutable n s b s' b' = refl

update_mutable :
    (n : String) (v s b : ℕ)
    → is_mutable n (globals_of s b) ≡ true
    → update n v (globals_of s b) ≡ globals_of v b
unfolding is_mutable update
update_mutable n v s b h = elim (Bool-cases ("__stack_pointer" == n)) [
  | inl e ↦ rw e refl
  | inr e ↦ ground arith
]

set_example :
    (n : String) (v : ℕ) (i : Example)
    → IsExample i
    → is_mutable n i.globals ≡ true
    → Returns
        (λ (i' : Example).
          IsExample i'
          × (example.memory i' ≡ example.memory i)
          × (i'.globals ≡ update n v i.globals))
        (example.set_global n v i)
set_example n v i is may = rw may (
    returns (
      record {
        stack = v;
        base = is.base;
        pages = is.pages;
        globals = rw is.globals (update_mutable n v is.stack is.base (rw (← is.globals) may));
      },
      refl,
      refl,
    ))

requests_of-IsAnswerable : (call : GuestCall) → All (IsAnswerable one_request) (requests_of call)
unfolding slice
requests_of-IsAnswerable start_call = (tt, (tt, (refl, tt)))
requests_of-IsAnswerable (wakeup_call result) = tt

grown :
    (n : ℕ) (i : Example) {m : Bytes} {i' : Example}
    → IsExample i
    → some i.mem ≡ some m
    → some (record i { mem = i.mem ++ zeros (n * page) }) ≡ some i'
    → IsExample i' × IsGrown example i (length m + n * page) i'
grown n i {m} is mem eq =
    let lengths : length (i.mem ++ zeros (n * page)) ≡ length i.mem + n * page =
      length-append i.mem (zeros (n * page))
      ∙ ap (λ (k : ℕ). length i.mem + k) (length-zeros (n * page)) in
    let same : length i.mem ≡ length m = ap length (some_injective mem) in
    subst (λ j. IsExample j × IsGrown example i (length m + n * page) j) (some_injective eq)
      (
        record {
          stack = is.stack;
          base = is.base;
          pages = omega (arith, is.pages);
          globals = is.globals;
        },
        record { memory = (i.mem ++ zeros (n * page), refl, omega arith); globals = refl },
      )

pub example-IsEngine : IsEngine example one_request IsExample
example-IsEngine = record {
  initial = 0;
  fresh_lem = record { stack = 7; base = 3; pages = refl; globals = refl };
  fresh_memory = ([], refl, refl);
  memory_lem = λ i is. (i.mem, refl, is.pages, omega arith);
  grow_lem = λ n i is mem eq. grown n i is mem eq;
  write_memory_lem = λ b i is mem len.
      let same = ap length (some_injective mem) in
      (
        record {
          stack = is.stack;
          base = is.base;
          pages = omega (arith, is.pages);
          globals = is.globals;
        },
        refl,
        refl,
      );
  globals_lem = λ i is. rw is.globals (globals_of-IsDistinct is.stack is.base);
  is_mutable_same =
      λ i j n is js. rw (is.globals, js.globals) (same_mutable n is.stack is.base js.stack js.base);
  set_global_lem = λ n v i is may. set_example n v i is may;
  run_lem = λ call k i is eq.
      subst (λ (x : Example × List HostCall). IsExample x.0) (some_injective eq) is;
  answerable = λ call k i is eq.
      subst (λ (x : Example × List HostCall). All (IsAnswerable one_request) x.1)
        (some_injective eq) (requests_of-IsAnswerable call);
}
