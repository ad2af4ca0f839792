-- ===== src/Operators/Changer.antt =====
-- controllers/value-changer/src/main.rs: a program that raises the nonce of one resource at the
-- times of a recorded trace.
use Prim.Native.String.{String}
use wasm_operator.Base.{
  ℕ, suc, ◌+◌, ◌≤◌, ◌<◌, Bool, true, false, Option, none, some, List, length, [], ◌∷◌, ◌≡◌, refl,
  sym, ap, arith, All, ℤ, pos, negsuc, if◌then◌else◌,
}
use mathlib.Core.Path.{subst}
use wasm_operator.Base.Outcome.{Outcome, ok, failed, panicked, out_of_fuel, ◌>>=◌}
use wasm_operator.Operators.Api.{
  fetch, TestResource, Fetched, found, not_found, get_failed, Api, HasNonce, IsApi, test_resource,
  incr_i64, i64_max,
}

abbrev pub kubesecret : String
kubesecret = "varsecret"

-- `Result<String, Error>` of `change_secret`, and the state after it; an error of the write is
-- passed on by `?`.
abbrev pub changed : {S : Type 0} → Option S → S → Bool × S
changed (some s') s = (true, s')
changed none s = (false, s)

abbrev pub tallied : {S : Type 0} → Bool → Outcome (ℕ × S) → Outcome (ℕ × S)
tallied done x = do (n, s2) ← x; ok (if done then suc n else n, s2)

abbrev pub then_all : {S : Type 0} → (S → Outcome (ℕ × S)) → Outcome (Bool × S) → Outcome (ℕ × S)
then_all rest x = do (done, s1) ← x; tallied done (rest s1)

-- One turn of the loop: the interval that it waits for, whether its `get` works, and the time then.
pub record Change (Time : Type 0) : Type 0 where
  pub duration : ℤ
  pub get_works : Bool
  pub time : Time

-- `duration.to_std().expect(…)`: a negative interval has no such form.
unfoldable pub to_std : ℤ → Outcome (Unit {0})
to_std (pos n) = ok tt
to_std (negsuc n) = panicked

module _ {S Time : Type 0} (api : Api S Time) where
  unfoldable pub change_fetched : Time → Fetched Time → S → Outcome (Bool × S)
  unfolding test_resource incr_i64
  change_fetched now_timestamp (found existing) s = ok (
      changed
        (api.replace "default" kubesecret (record existing { nonce = incr_i64 existing.nonce }) s)
        s)
  change_fetched now_timestamp not_found s =
      ok (changed (api.create "default" (test_resource kubesecret (pos 1) now_timestamp) s) s)
  change_fetched now_timestamp get_failed s = panicked

  unfoldable pub change_secret : Bool → Time → S → Outcome (Bool × S)
  unfolding change_fetched
  change_secret get_works now_timestamp s =
      change_fetched now_timestamp (fetch get_works (api.get "default" kubesecret s)) s

  -- The loop of `main_async`: an error is printed, and the loop goes on. The number is that of the
  -- changes that have been made.
  unfoldable pub change_all : List (Change Time) → S → Outcome (ℕ × S)
  unfolding to_std
  change_all [] s = ok (0, s)
  change_all (change ∷ rest) s = do
    slept ← to_std change.duration
    (done, s1) ← change_secret change.get_works change.time s
    tallied done (change_all rest s1)

module _ {S Time : Type 0} (api : Api S Time) (laws : IsApi api) where
  -- One more, or an error and the same state.
  data IsChanged (k : ℕ) (s : S) : Outcome (Bool × S) → Type 0 where
    changes :
        {s' : S}
        → HasNonce api "default" kubesecret (pos (k + 1)) s'
        → IsChanged k s (ok (true, s'))
    keeps : IsChanged k s (ok (false, s))

  changed-IsChanged :
      (k : ℕ) (existing : TestResource Time) (s : S) (x : Option S)
      → api.get "default" kubesecret s ≡ found existing
      → existing.nonce ≡ pos k
      → k < i64_max
      → api.replace "default" kubesecret (record existing { nonce = incr_i64 existing.nonce }) s ≡ x
      → IsChanged k s (ok (changed x s))
  unfolding incr_i64
  changed-IsChanged k existing s none g n lt e = keeps
  changed-IsChanged k existing s (some s') g n lt e =
      let (named, (v, versioned)) = laws.get_lem "default" kubesecret s g in
      let next : incr_i64 existing.nonce ≡ pos (k + 1) = rw n (ground arith) in
      let (_, w) =
        laws.replace_lem "default" kubesecret (record existing { nonce = incr_i64 existing.nonce })
          s named versioned e in
      changes (subst (λ (z : ℤ). HasNonce api "default" kubesecret z s') next w.written)

  change_secret-IsChanged :
      (k : ℕ) (time : Time) (s : S)
      → k < i64_max
      → HasNonce api "default" kubesecret (pos k) s
      → IsChanged k s (change_secret api true time s)
  unfolding change_secret change_fetched
  change_secret-IsChanged k time s lt h =
      subst (λ x. IsChanged k s (change_fetched api time x s)) (sym h.fetched)
        (changed-IsChanged k h.resource s _ h.fetched h.same_nonce lt refl)

  -- A turn that does not panic: its interval is not negative, and its `get` works.
  abbrev pub IsCalm : Change Time → Type 0
  IsCalm change = (to_std change.duration ≡ ok tt) × (change.get_works ≡ true)

  -- A run of the program on a server that keeps its laws and has the resource, where a write that
  -- returns an error has changed nothing. If no interval is negative and each `get` works, then it
  -- does not panic, and the nonce has grown by the number of changes that were made, one for each
  -- write that the server has accepted, as long as it stays within `i64`.
  pub change_all-count :
      (turns : List (Change Time)) (k : ℕ) (s : S)
      → All IsCalm turns
      → k + length turns ≤ i64_max
      → HasNonce api "default" kubesecret (pos k) s
      → (n : ℕ) × (s' : S) × (change_all api turns s ≡ ok (n, s'))
        × HasNonce api "default" kubesecret (pos (k + n)) s'
  unfolding change_all
  change_all-count [] k s calm le h = let same : k + 0 ≡ k = omega arith in (0, s, refl, rw same h)
  change_all-count (change ∷ turns) k s ((sleeps, works), calm) le h =
      rw (sleeps, works)
        (go (change_secret api true change.time s)
          (change_secret-IsChanged k change.time s (omega arith) h)
          (λ k' s1 le' h'. change_all-count turns k' s1 calm le' h'))
    where
      go :
          (x : Outcome (Bool × S))
          → IsChanged k s x
          → ((k' : ℕ) (s1 : S)
              → k' + length turns ≤ i64_max
              → HasNonce api "default" kubesecret (pos k') s1
              → (n : ℕ) × (s' : S) × (change_all api turns s1 ≡ ok (n, s'))
                × HasNonce api "default" kubesecret (pos (k' + n)) s')
          → (n : ℕ) × (s' : S) × (then_all (λ s1. change_all api turns s1) x ≡ ok (n, s'))
            × HasNonce api "default" kubesecret (pos (k + n)) s'
      go failed x next = elim x [ ]
      go panicked x next = elim x [ ]
      go out_of_fuel x next = elim x [ ]
      go (ok (true, s1)) (changes h') next =
          let (n, s', e, h'') = next (k + 1) s1 (omega arith) h' in
          let sum : k + suc n ≡ k + 1 + n = omega arith in
          (suc n, s', ap (tallied true) e, rw sum h'')
      go (ok (false, _)) keeps next =
          let (n, s', e, h'') = next k s (omega arith) h in (n, s', ap (tallied false) e, h'')
