-- ===== src/Abi/Wakeup.antt =====
-- `wakeup` of abi/mod.rs: a result of the host is put into the memory of an operator, and handed to
-- it; and what `wakeup` of executor.rs takes it to be. The operator's `allocate` and the `write` of
-- a memory are parameters.
use wasm_operator.Base.{
  some_injective, ℕ, ◌%◌, ◌<◌, Bool, true, false, Option, none, some, length, take, drop, ◌==◌,
  if◌then◌else◌, ◌≡◌, ◌≢◌, refl, ap, arith,
}
use mathlib.Core.Path.{subst}
use wasm_operator.Abi.Command.{Bytes, AsyncResult}
use wasm_operator.Abi.{u32_mod}

-- The arguments of the exported `wakeup`.
pub record WakeupArgs : Type 0 where
  pub stream_id : ℕ
  pub finished : ℕ
  pub ptr : ℕ
  pub len : ℕ

module _ (allocate : ℕ → Bytes → Option (ℕ × Bytes))
    (write : Bytes → ℕ → Bytes → Option Bytes) where
  -- `memory_location_ptr` and `memory_location_size`, with the memory after the write; none for an
  -- error.
  unfoldable pub place : Option Bytes → Bytes → Option (ℕ × (ℕ × Bytes))
  place none memory = some (0, (0, memory))
  place (some event) memory = elim (allocate (length event % u32_mod) memory) [
    | none ↦ none
    | some (ptr, m) ↦ elim (write m ptr event) [
      | none ↦ none
      | some m' ↦ some (ptr, (length event, m'))
    ]
  ]

  unfoldable pub wakeup_args : AsyncResult → Bytes → Option (WakeupArgs × Bytes)
  unfolding place
  wakeup_args result memory = elim (place result.value memory) [
    | none ↦ none
    | some (ptr, (size, m)) ↦ some (
      record {
        stream_id = result.async_request_id;
        finished = if result.finished then 1 else 0;
        ptr = ptr;
        len = size % u32_mod;
      },
      m,
    )
  ]

-- `if !ptr.is_null()`, and `Vec::from_raw_parts`.
unfoldable pub value_at : WakeupArgs → Bytes → Option Bytes
value_at args memory = if args.ptr == 0 then none else some (take args.len (drop args.ptr memory))

-- What arrives at the operator.
pub record Arrives (result : AsyncResult) (x : WakeupArgs × Bytes) : Type 0 where
  pub id : x.0.stream_id ≡ result.async_request_id
  pub value : value_at x.0 x.1 ≡ result.value
  pub finished : (x.0.finished == 1) ≡ result.finished

module _ (allocate : ℕ → Bytes → Option (ℕ × Bytes)) (write : Bytes → ℕ → Bytes → Option Bytes)
    (allocate_lem : (n : ℕ) (m : Bytes) (ptr : ℕ) (m' : Bytes)
      → allocate n m ≡ some (ptr, m')
      → ptr ≢ 0)
    (write_lem : (m : Bytes) (ptr : ℕ) (b m' : Bytes)
      → write m ptr b ≡ some m'
      → take (length b) (drop ptr m') ≡ b) where
  abbrev Placed : Option Bytes → Option (ℕ × (ℕ × Bytes)) → Type 0
  Placed value none = Unit
  Placed value (some (ptr, (size, m))) =
      (if ptr == 0 then none else some (take (size % u32_mod) (drop ptr m))) ≡ value

  written :
      (event m : Bytes) (ptr : ℕ) (x : Option Bytes)
      → length event < u32_mod
      → ptr ≢ 0
      → write m ptr event ≡ x
      → Placed (some event) (elim x [ none ↦ none | some m' ↦ some (ptr, (length event, m')) ])
  written event m ptr none fits there e = tt
  written event m ptr (some m') fits there e =
      let size : length event % u32_mod ≡ length event = omega arith in
      let there' : (ptr == 0) ≡ false = ground arith in
      rw (size, there') (ap some (write_lem m ptr event m' e))

  allocated :
      (event memory : Bytes) (x : Option (ℕ × Bytes))
      → length event < u32_mod
      → allocate (length event % u32_mod) memory ≡ x
      → Placed (some event) (elim x [
        | none ↦ none
        | some (ptr, m) ↦ elim (write m ptr event) [
          | none ↦ none
          | some m' ↦ some (ptr, (length event, m'))
        ]
      ])
  allocated event memory none fits e = tt
  allocated event memory (some (ptr, m)) fits e =
      written event m ptr (write m ptr event) fits
        (allocate_lem (length event % u32_mod) memory ptr m e) refl

  place-Placed :
      (value : Option Bytes) (memory : Bytes)
      → ((event : Bytes) → value ≡ some event → length event < u32_mod)
      → Placed value (place allocate write value memory)
  unfolding place
  place-Placed none memory fits = refl
  place-Placed (some event) memory fits =
      allocated event memory (allocate (length event % u32_mod) memory) (fits event refl) refl

  flag : (b : Bool) → ((if b then 1 else 0) == 1) ≡ b
  flag true = refl
  flag false = refl

  -- A result of less than 4 GiB that the host hands to an operator, whose `allocate` never returns a
  -- null pointer: the operator takes it for the same result, value and end included.
  pub wakeup_args-Arrives :
      (result : AsyncResult) (memory : Bytes) (x : WakeupArgs × Bytes)
      → ((event : Bytes) → result.value ≡ some event → length event < u32_mod)
      → wakeup_args allocate write result memory ≡ some x
      → Arrives result x
  unfolding wakeup_args value_at
  wakeup_args-Arrives result memory x fits e =
      go (place allocate write result.value memory) (place-Placed result.value memory fits) e
    where
      go :
          (y : Option (ℕ × (ℕ × Bytes)))
          → Placed result.value y
          → (elim y [
            | none ↦ none
            | some (ptr, (size, m)) ↦ some (
              record {
                stream_id = result.async_request_id;
                finished = if result.finished then 1 else 0;
                ptr = ptr;
                len = size % u32_mod;
              },
              m,
            )
          ])
            ≡ some x
          → Arrives result x
      go none p f = cc
      go (some (ptr, (size, m))) p f =
          subst (Arrives result) (some_injective f)
            (record { id = refl; value = p; finished = flag result.finished })
