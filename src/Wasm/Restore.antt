-- ===== src/Wasm/Restore.antt =====
-- Swapping an instance of modules/wasm.rs back in: its memory and its globals are restored.
use Prim.Native.String.{String}
use wasm_operator.Base.{
  ℕ, suc, ◌-◌, ◌+◌, ◌*◌, ◌%◌, ◌≤◌, ◌<◌, get_elem?, ltb_iff, true, Option, none, some, List, [], ◌∷◌,
  length, take-length, ==_iff, ltb, leb, ◌==◌, ◌≡◌, refl, sym, ap, ◌∙◌, arith, inl, inr, Bool-cases,
  leb_iff, if◌then◌else◌,
}
use wasm_operator.Base.Outcome.{Outcome, ok, failed, ◌>>=◌, Returns, returns, errs}
use wasm_operator.Abi.{RequestCodec}
use wasm_operator.Abi.Command.{Bytes}
use wasm_operator.Wasm.Globals.{
  Global, value_of, is_mutable, var_globals, AllMutable, value_after, value_of-update,
  value_after-var_globals, AllMutable-var_globals,
}
use wasm_operator.Wasm.Wasmtime.{Engine, IsEngine, page}
use wasm_operator.Wasm.{Snapshot, n_pages}
use wasm_operator.Wasm.Pages.{n_pages-exact}
use wasm_operator.Wasm.Jobs.{grow_to, read_memory, set_globals, restore}

-- What `uninstantiate` saves of an instance.
abbrev pub saved : {Inst Val : Type 0} → Engine Inst Val → Inst → Bytes → Snapshot Val
saved e old m = record { globals = var_globals (e.globals old); memory_min = length m }

-- The call succeeds with a result that satisfies `P`, or it returns an error for the reason `R`.
pub data Ends {A : Type 0} (R : Type 0) (P : A → Type 0) : Outcome A → Type 0 where
  ends : {a : A} → P a → Ends R P (ok a)
  refuses : R → Ends R P failed

module _ {A : Type 0} {R : Type 0} {P : A → Type 0} where
  Ends-bind :
      {B : Type 0} {Q : B → Type 0} {r : Outcome A} {k : A → Outcome B}
      → Ends R P r
      → ((a : A) → P a → Ends R Q (k a))
      → Ends R Q (r >>= k)
  Ends-bind (ends p) next = next _ p
  Ends-bind (refuses why) next = refuses why

  Returns-Ends : {r : Outcome A} → Returns P r → (r ≡ failed → R) → Ends R P r
  Returns-Ends (returns p) why = ends p
  Returns-Ends errs why = refuses (why refl)

  Ends-mono : {Q : A → Type 0} {r : Outcome A} → Ends R P r → ((a : A) → P a → Q a) → Ends R Q r
  Ends-mono (ends p) weaken = ends (weaken _ p)
  Ends-mono (refuses why) weaken = refuses why

  pub Ends-Returns :
      {Q : A → Type 0} {r : Outcome A} → Ends R P r → ((a : A) → P a → Q a) → Returns Q r
  Ends-Returns (ends p) weaken = returns (weaken _ p)
  Ends-Returns (refuses why) weaken = errs

module _ {Inst Val Req : Type 0} (e : Engine Inst Val) (codec : RequestCodec Req)
    {IsInst : Inst → Type 0} (laws : IsEngine e codec IsInst) where
  -- An instance with this memory and the globals of another.
  record HasMemory (m : Bytes) (globals : List (Global Val)) (i : Inst) : Type 0 where
    is_inst : IsInst i
    memory : e.memory i ≡ some m
    same_globals : e.globals i ≡ globals

  record HasSize (size : ℕ) (globals : List (Global Val)) (i : Inst) : Type 0 where
    is_inst : IsInst i
    memory : (m : Bytes) × (e.memory i ≡ some m) × (length m ≡ size)
    same_globals : e.globals i ≡ globals

  -- The engine refuses to grow the memory of a fresh instance to this size, or to set one of these
  -- globals in some instance.
  pub data IsRefused (size : ℕ) (vars : List (String × Val)) : Type 0 where
    grow_refused :
        (m : Bytes) (n : ℕ)
        → e.memory e.fresh ≡ some m
        → length m < size
        → length m + n * page ≡ size
        → e.grow n e.fresh ≡ none
        → IsRefused size vars
    set_refused :
        (k : ℕ) (name : String) (value : Val) (i : Inst)
        → IsInst i
        → get_elem? vars k ≡ some (name, value)
        → e.set_global name value i ≡ failed
        → IsRefused size vars

  grow_to-HasSize :
      {R : Type 0} (size : ℕ) (i : Inst) (m : Bytes)
      → ((n : ℕ) → length m < size → length m + n * page ≡ size → e.grow n i ≡ none → R)
      → IsInst i
      → e.memory i ≡ some m
      → length m % page ≡ 0
      → size % page ≡ 0
      → length m ≤ size
      → Ends R (HasSize size (e.globals i)) (grow_to e size (length m) i)
  unfolding grow_to
  grow_to-HasSize {R} size i m why is h p q le = elim (Bool-cases (ltb (length m) size)) [
    | inl small ↦
        rw small (grown ((ltb_iff _ _).0 small) (e.grow (n_pages (size - length m)) i) refl)
    | inr large ↦
        rw large
          (ends (record { is_inst = is; memory = (m, h, ground arith); same_globals = refl }))
  ]
    where
      exact : length m + n_pages (size - length m) * page ≡ size
      exact = n_pages-exact (length m) size p q le

      grown :
          length m < size
          → (x : Option Inst) → e.grow (n_pages (size - length m)) i ≡ x
          → Ends R (HasSize size (e.globals i)) (elim x [ none ↦ failed | some i' ↦ ok i' ])
      grown lt none eq = refuses (why _ lt exact eq)
      grown lt (some i') eq =
          let (is', g) = laws.grow_lem (n_pages (size - length m)) i is h eq in
          let (m', mem', len') = g.memory in
          ends
            (record { is_inst = is'; memory = (m', mem', len' ∙ exact); same_globals = g.globals })

  read_memory-HasMemory :
      {R : Type 0} (file : Bytes) (globals : List (Global Val)) (i : Inst)
      → HasSize (length file) globals i
      → Ends R (HasMemory file globals) (read_memory e (length file) file i)
  unfolding read_memory
  read_memory-HasMemory file globals i s =
      let (m, mem, len) = s.memory in
      let fits : leb (length m) (length file) ≡ true = (leb_iff _ _).1 (omega arith) in
      let all : (length m == length file) ≡ true = (==_iff _ _).1 len in
      let (is, mem', same) = laws.write_memory_lem file i s.is_inst mem (sym len) in
      rw (mem, read_memory)
        (rw (fits, all, len, take-length file)
          (ends (record { is_inst = is; memory = mem'; same_globals = same ∙ s.same_globals })))

  -- After the pairs have been set: the same memory, and the values that they leave.
  record HasValues (m : Bytes) (vars : List (String × Val)) (globals : List (Global Val)) (i : Inst)
      : Type 0 where
    is_inst : IsInst i
    memory : e.memory i ≡ some m
    values : (n : String) → value_of n (e.globals i) ≡ value_after n vars (value_of n globals)

  set_globals-HasValues :
      {R : Type 0} (vars : List (String × Val)) (old : Inst) (m : Bytes) (i : Inst)
      → ((k : ℕ) (name : String) (value : Val) (i' : Inst)
          → IsInst i'
          → get_elem? vars k ≡ some (name, value)
          → e.set_global name value i' ≡ failed
          → R)
      → IsInst old
      → IsInst i
      → e.memory i ≡ some m
      → AllMutable (e.globals old) vars
      → Ends R (HasValues m vars (e.globals i)) (set_globals e vars i)
  unfolding set_globals value_after
  set_globals-HasValues [] old m i why io is mem a =
      ends (record { is_inst = is; memory = mem; values = λ n. refl })
  set_globals-HasValues {R} ((name, value) ∷ rest) old m i why io is mem a =
      let may = laws.is_mutable_same i old name is io ∙ a.0 in
      Ends-bind
        (Returns-Ends (laws.set_global_lem name value i is may)
          (λ eq. why 0 name value i is refl eq))
        λ i' (is', mem', set').
          Ends-mono
            (set_globals-HasValues rest old m i'
              (λ k name' value' j is_j at eq. why (suc k) name' value' j is_j at eq) io is'
              (mem' ∙ mem) a.1)
            λ i'' h. record {
              is_inst = h.is_inst;
              memory = h.memory;
              values = λ n.
                  h.values n
                  ∙ ap (value_after n rest)
                      (ap (value_of n) set' ∙ value_of-update n name value (e.globals i) may);
            }

  sizes :
      (i : Inst) (m : Bytes)
      → IsInst i
      → e.memory i ≡ some m
      → (length m % page ≡ 0) × (laws.initial ≤ length m)
  sizes i m is mem =
      let (m', mem', pages, large) = laws.memory_lem i is in
      let eq : some m ≡ some m' = sym mem ∙ mem' in
      let same : m ≡ m' = cc in
      let lengths : length m ≡ length m' = ap length same in (omega arith, omega arith)

  restored_values :
      (old : Inst) (n : String) (before after : Option Val)
      → IsInst old
      → after ≡ value_after n (var_globals (e.globals old)) before
      → (if is_mutable n (e.globals old) then after else none)
        ≡ (if is_mutable n (e.globals old) then value_of n (e.globals old) else none)
  restored_values old n before after io h = elim (Bool-cases (is_mutable n (e.globals old))) [
    | inl may ↦
        rw may (h ∙ value_after-var_globals n (e.globals old) before (laws.globals_lem old io) may)
    | inr no_var ↦ rw no_var
  ]

  -- An instance that holds the same memory as another, and in each mutable global the same value.
  pub record IsRestored (old i : Inst) : Type 0 where
    pub is_inst : IsInst i
    pub memory : e.memory i ≡ e.memory old
    pub globals :
        (n : String)
        → (if is_mutable n (e.globals old) then value_of n (e.globals i) else none)
          ≡ (if is_mutable n (e.globals old) then value_of n (e.globals old) else none)

  -- Swapping an instance out and in again: the snapshot and the memory that are saved of any
  -- instance of the module, restored in a fresh one, give back its whole memory and the values of
  -- its mutable globals. There is an error only if the engine refuses to grow the memory of the
  -- fresh instance to the size of the old one, or to set one of these globals. No assertion fails on
  -- the way.
  pub restore-IsRestored :
      (old : Inst) (m : Bytes)
      → IsInst old
      → e.memory old ≡ some m
      → Ends
          (IsRefused (length m) (var_globals (e.globals old)))
          (IsRestored old)
          (restore e (saved e old m) m e.fresh)
  unfolding restore
  restore-IsRestored old m io mem =
      let (m0, mem0, len0) = laws.fresh_memory in
      rw (mem0, restore)
        (Ends-bind
          (grow_to-HasSize (length m) e.fresh m0
            (λ n lt len no_room. grow_refused m0 n mem0 lt len no_room) laws.fresh_lem mem0
            (sizes e.fresh m0 laws.fresh_lem mem0).0 (sizes old m io mem).0
            (omega (arith, (sizes old m io mem).1)))
          λ i1 s1. Ends-bind (read_memory-HasMemory m (e.globals e.fresh) i1 s1) λ i2 s2.
            Ends-mono
              (set_globals-HasValues (var_globals (e.globals old)) old m i2
                (λ k name value i is at eq. set_refused k name value i is at eq) io s2.is_inst
                s2.memory (AllMutable-var_globals (e.globals old) (laws.globals_lem old io)))
              λ i3 s3. record {
                is_inst = s3.is_inst;
                memory = s3.memory ∙ sym mem;
                globals = λ n. restored_values old n _ _ io (s3.values n);
              })
