-- ===== src/Runtime/Tests.antt =====
-- Runs of the definitions of the runtime, with simple stand-ins for the parser, the hash and paths.
use Prim.Native.String.{String, ◌++◌}
use text.Mathlib.Text.{◌==◌}
use text.Mathlib.TextEquality.{eq_iff}
use text.Mathlib.TextLemmas.{append_cancel_left, append-eq-nil_iff}
use wasm_operator.Base.{
  ℕ, zero, suc, true, false, none, some, List, [], ◌∷◌, ◌≡◌, ◌≢◌, ◌⊎◌, refl, sym, ap, arith,
  if◌then◌else◌,
}
use wasm_operator.Runtime.Main.{Surroundings}
use wasm_operator.Runtime.Metadata.{
  ControllerModuleMetadata, Parsed, metadata, eof_error, load_modules_from_dir, IsWrong, Describes,
  load_modules_from_dir-cases,
}
use wasm_operator.Runtime.Start.{Started, start_all, swap_file, start_all-distinct}

abbrev named : String → ControllerModuleMetadata
named doc = record { name = doc; wasm = doc; env = []; args = [] }

abbrev parse : String → Parsed
parse doc = if doc == "" then eof_error else metadata (named doc)

abbrev split : String → List String
split config = config ∷ "" ∷ []

load_modules_from_dir-cases_example :
    ((load_modules_from_dir parse split (some "ring") ≡ none) × IsWrong parse (split "ring"))
    ⊎ ((ms : List ControllerModuleMetadata) × (load_modules_from_dir parse split (some "ring")
          ≡ some ms)
        × Describes parse (split "ring") ms)
load_modules_from_dir-cases_example = load_modules_from_dir-cases parse split "ring"

-- Numbers in base one.
unfoldable show : ℕ → String
show zero = ""
show (suc n) = "1" ++ show n

nonempty : (n : ℕ) → "" ≢ ("1" ++ show n)
nonempty n e =
    let left : ◌≡◌ {A = String} "1" "" = ((append-eq-nil_iff {p = "1"} {q = show n}).0 (sym e)).0 in
    let same : false ≡ true = (eq_iff "1" "").1 left in cc

show-injective : (m n : ℕ) → show m ≡ show n → m ≡ n
unfolding show
show-injective zero zero e = refl
show-injective zero (suc n) e = absurd (nonempty n e)
show-injective (suc m) zero e = absurd (nonempty m (sym e))
show-injective (suc m) (suc n) e =
    ap suc (show-injective m n (append_cancel_left "1" (show m) (show n) e))

abbrev join : String → String → String
join a b = a ++ ("/" ++ b)

abbrev commands : List ControllerModuleMetadata
commands = named "a" ∷ named "b" ∷ []

abbrev started : ℕ → String → Started
started id doc = record {
  meta = named doc;
  async_client_id = id;
  client_swap_path = swap_file join show "/swap" id;
}

join-injective :
    (a b : String) → join "/swap" ("worker_" ++ a) ≡ join "/swap" ("worker_" ++ b) → a ≡ b
join-injective a b e = append_cancel_left "worker_" a b (
    append_cancel_left "/" ("worker_" ++ a) ("worker_" ++ b)
      (append_cancel_left "/swap" ("/" ++ ("worker_" ++ a)) ("/" ++ ("worker_" ++ b)) e))

start_all-distinct_example :
    ((started 0 "a").async_client_id ≢ (started 1 "b").async_client_id)
    × ((started 0 "a").client_swap_path ≢ (started 1 "b").client_swap_path)
unfolding start_all
start_all-distinct_example =
    start_all-distinct join show "/swap" join-injective show-injective commands 0 1
      {m = started 0 "a"} {n = started 1 "b"} refl refl (omega arith) (omega arith)

abbrev here : Surroundings ℕ ℕ
here = record {
  tokio_runtime = true;
  cluster_url = some 1;
  service = some 2;
  args = "controller" ∷ "/modules" ∷ [];
  cache_dir = true;
  swap_dir = true;
  files = λ path. some "ring";
}
