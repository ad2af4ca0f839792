-- ===== src/Operators/Tests.antt =====
-- Runs of the operators, with a small API server.
use Prim.Native.String.{String}
use wasm_operator.Base.{
  ℕ, zero, suc, ◌+◌, Bool, true, false, none, some, List, [], ◌∷◌, length, map, ◌≡◌, refl, arith, ℤ,
  pos, ◌-ℤ◌,
}
use wasm_operator.Base.Outcome.{ok}
use wasm_operator.Operators.Api.{
  TestResource, HasNonce, HasAtLeast, reconciled, await_change, test_resource,
}
use wasm_operator.Operators.Example.{Server, resource, server, server-IsApi, set}
use wasm_operator.Operators.Ring
use wasm_operator.Operators.Written.{HasNonce-HasAtLeast}
use wasm_operator.Operators.Ring.{update_out, reconcile-HasAtLeast, reconcile-idempotent}
use wasm_operator.Operators.Comb
use wasm_operator.Operators.Comb.{comb_namespace, Passed, arrives, passes, stays, Passed-HasAtLeast}
use wasm_operator.Operators.Changer.{Change, to_std, change_all, kubesecret, change_all-count}
use wasm_operator.Operators.Traces.{read_traces, last_of, total, read_traces-total}

abbrev empty : Server
empty ns name = none

-- The namespace `a` holds a resource.
abbrev one : Server
one = set "a" "r" 5 empty

abbrev copied : Server
copied = set "b" "r" 5 one

one-HasNonce : HasNonce server "a" "r" (pos 5) one
one-HasNonce = record {
  resource = resource "r" 5;
  fetched = refl;
  same_name = refl;
  same_nonce = refl;
}

reconcile-HasAtLeast_example :
    HasAtLeast server "a" "r" (pos 5) (Ring.reconcile server "b" (resource "r" 5) 0 one one).1
reconcile-HasAtLeast_example =
    reconcile-HasAtLeast server server-IsApi "b" (resource "r" 5) 0 one one "a" "r" (pos 5)
      one-HasNonce

one-copied :
    Ring.reconcile server "b" (resource "r" 5) 0 one one ≡ (reconciled await_change, copied)
unfolding Ring.reconcile update_out test_resource
one-copied = refl

reconcile-idempotent_example :
    HasAtLeast server "b" "r" (pos 5) copied
    × (Ring.reconcile server "b" (resource "r" 5) 1 copied copied
        ≡ (reconciled await_change, copied))
reconcile-idempotent_example =
    reconcile-idempotent server server-IsApi "b" (resource "r" 5) 0 1 one copied await_change
      one-copied

-- Numbers in base one.
abbrev show : ℕ → String
show zero = ""
show (suc n) = "1"

abbrev row : Server
row = set "native-rust-comb" "r" 5 empty

abbrev row_done : Server
row_done = set "native-rust-comb1" "r" 5 row

row-HasNonce : HasNonce server (comb_namespace show 0) "r" (pos 5) row
row-HasNonce = record {
  resource = resource "r" 5;
  fetched = refl;
  same_name = refl;
  same_nonce = refl;
}

row-row_done :
    Comb.reconcile server (comb_namespace show 1) (resource "r" 5) 0 row row
    ≡ (reconciled await_change, row_done)
unfolding Comb.reconcile Ring.reconcile update_out test_resource
row-row_done = refl

Passed-HasAtLeast_example : HasAtLeast server (comb_namespace show 1) "r" (pos 5) row_done
Passed-HasAtLeast_example =
    Passed-HasAtLeast server server-IsApi show 1 "r" 0 1 (pos 5) row row_done
      (HasNonce-HasAtLeast server server-IsApi (comb_namespace show 0) "r" (pos 5) row row-HasNonce)
      (passes (resource "r" 5) 0 await_change stays refl stays row-row_done (arrives stays))

abbrev counting : Server
counting = set "default" "cluster" 3 empty

abbrev f : String
f = "f"

abbrev cluster : String
cluster = "cluster"

-- The second `get` fails.
abbrev two_changes : List (TestResource ℕ × Bool)
two_changes = (resource "f" 1, true) ∷ (resource "f" 1, false) ∷ []

abbrev secret : Server
secret = set "default" "varsecret" 3 empty

secret-HasNonce : HasNonce server "default" kubesecret (pos 3) secret
secret-HasNonce = record {
  resource = resource "varsecret" 3;
  fetched = refl;
  same_name = refl;
  same_nonce = refl;
}

abbrev turn : ℕ → Change ℕ
turn time = record { duration = pos 5; get_works = true; time = time }

change_all-count_example :
    (n : ℕ) × (s' : Server) × (change_all server (turn 7 ∷ turn 8 ∷ []) secret ≡ ok (n, s'))
    × HasNonce server "default" kubesecret (pos (3 + n)) s'
unfolding to_std
change_all-count_example =
    change_all-count server server-IsApi (turn 7 ∷ turn 8 ∷ []) 3 secret
      ((refl, refl), ((refl, refl), tt)) (omega arith) secret-HasNonce

abbrev dates : List ℤ
dates = pos 40 ∷ []

read_traces-total_example :
    (waits : List ℤ) × (read_traces (map some (pos 10 ∷ pos 25 ∷ pos 40 ∷ [])) ≡ ok waits)
    × (length waits ≡ length dates + 2)
    × (total waits ≡ last_of (pos 25) dates -ℤ pos 10)
read_traces-total_example = read_traces-total (pos 10) (pos 25) dates
