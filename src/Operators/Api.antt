-- ===== src/Operators/Api.antt =====
-- What the operators use of the crate `kube`, for the custom resource `TestResource`: the state of
-- the API server, and the calls of an `Api` in a namespace.
use Prim.Native.String.{String}
use wasm_operator.Base.{
  ℕ, Bool, true, false, ◌-◌, ◌^◌, Option, none, some, ◌≡◌, ◌≢◌, ◌⊎◌, ℤ, pos, negsuc, ◌+ℤ◌, ◌≤ℤ◌,
  ltb_ℤ, if◌then◌else◌,
}

-- `TestResource`; its `resource_version` is the server's. A time is a `MicroTime`.
pub record TestResource (Time : Type 0) : Type 0 where
  pub name : String
  pub resource_version : Option ℕ
  pub nonce : ℤ
  pub updated_at : Option Time

-- What `get` returns: the 404 of a resource that is not there is one of the errors.
pub data Fetched (Time : Type 0) : Type 0 where
  found : TestResource Time → Fetched Time
  not_found : Fetched Time
  get_failed : Fetched Time

-- A `get` may fail at any time; in what state the server is has nothing to do with it.
abbrev pub fetch : {Time : Type 0} → (get_works : Bool) → Fetched Time → Fetched Time
fetch true fetched = fetched
fetch false fetched = get_failed

-- The calls, each with its namespace; none for an error. `S` is the state of the server.
pub record Api (S Time : Type 0) : Type 0 where
  pub get : String → String → S → Fetched Time
  pub replace : String → String → TestResource Time → S → Option S
  pub create : String → TestResource Time → S → Option S

-- The resource that a key names is there, and has this nonce.
pub record HasNonce {S Time : Type 0} (api : Api S Time) (ns name : String) (nonce : ℤ) (s : S)
    : Type 0 where
  pub resource : TestResource Time
  pub fetched : api.get ns name s ≡ found resource
  pub same_name : resource.name ≡ name
  pub same_nonce : resource.nonce ≡ nonce

-- After a write to one key.
pub record IsWritten {S Time : Type 0} (api : Api S Time) (ns name : String) (nonce : ℤ) (s s' : S)
    : Type 0 where
  pub written : HasNonce api ns name nonce s'
  pub others :
      (ns' name' : String)
      → (ns ≢ ns') ⊎ (name ≢ name')
      → api.get ns' name' s' ≡ api.get ns' name' s

-- The documented behaviour of the calls. A resource has the name that it is fetched by, and a
-- version that changes with each write to it. A write that succeeds is seen by the next `get`, and
-- changes no other resource; a `replace` succeeds only if its version is that of the server, a
-- `create` only if the resource is not there.
pub record IsApi {S Time : Type 0} (api : Api S Time) : Type 0 where
  pub get_lem :
      (ns name : String) (s : S) {r : TestResource Time}
      → api.get ns name s ≡ found r
      → (r.name ≡ name) × ((v : ℕ) × (r.resource_version ≡ some v))
  pub version_lem :
      (ns name : String) (s s' : S) {r r' : TestResource Time}
      → api.get ns name s ≡ found r
      → api.get ns name s' ≡ found r'
      → r.resource_version ≡ r'.resource_version
      → r ≡ r'
  pub replace_lem :
      (ns name : String) (r : TestResource Time) (s : S) {s' : S} {v : ℕ}
      → r.name ≡ name
      → r.resource_version ≡ some v
      → api.replace ns name r s ≡ some s'
      → ((old : TestResource Time) × (api.get ns name s ≡ found old)
          × (old.resource_version ≡ r.resource_version))
        × IsWritten api ns name r.nonce s s'
  pub create_lem :
      (ns : String) (r : TestResource Time) (s : S) {s' : S}
      → api.create ns r s ≡ some s'
      → (api.get ns r.name s ≡ not_found) × IsWritten api ns r.name r.nonce s s'

-- The resource that a key names is there, with a nonce that is not smaller.
pub record HasAtLeast {S Time : Type 0} (api : Api S Time) (ns name : String) (nonce : ℤ) (s : S)
    : Type 0 where
  pub current : ℤ
  pub has : HasNonce api ns name current s
  pub enough : nonce ≤ℤ current

-- `test_resource`, the same in all operators.
unfoldable pub test_resource : {Time : Type 0} → String → ℤ → Time → TestResource Time
test_resource name nonce start_timestamp = record {
  name = name;
  resource_version = none;
  nonce = nonce;
  updated_at = some start_timestamp;
}

-- `Result<Action, Error>` of a reconciliation: `Action::await_change()`, or an error, on which the
-- controller tries again a second later (`error_policy`).
pub data Action : Type 0 where
  await_change : Action
  requeue : ℕ → Action

pub data Reconciled : Type 0 where
  reconciled : Action → Reconciled
  failed : Reconciled

unfoldable pub error_policy : Action
error_policy = requeue 1

abbrev pub i64_max : ℕ
i64_max = 2 ^ 63 - 1

-- `n + 1` in `i64`, as in a release build.
unfoldable pub incr_i64 : ℤ → ℤ
incr_i64 n = if ltb_ℤ n (pos i64_max) then n +ℤ pos 1 else negsuc i64_max
