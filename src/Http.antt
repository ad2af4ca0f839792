-- ===== src/Http.antt =====
-- The HTTP requests of operators: http_data.rs of pkg/kube-runtime-abi and of
-- pkg/controller/src/runtime/http_engine, and request_executor.rs. The `http` crate is a parameter:
-- `HeaderMaps` and `Uris` are what the code calls of it.
pub mod Crate
pub mod Headers
pub mod Proxy
pub mod Executor
mod Tests
use wasm_operator.Base.{Bool, true, false, Option, none, some, List, [], ◌∷◌, if◌then◌else◌}
use wasm_operator.Base.Outcome.{Outcome, ok, failed, panicked, ◌>>=◌}
use wasm_operator.Http.Crate.{Parts, Uris, HeaderMaps, Request, Response}

-- `HttpRequest<T>`, of the host and of the operator.
pub record HttpRequest (Method Uri Map T : Type 0) : Type 0 where
  pub method : Method
  pub uri : Uri
  pub headers : Map
  pub body : T

pub record HttpResponseMeta (Status Map : Type 0) : Type 0 where
  pub status_code : Status
  pub headers : Map

unfoldable pub from_request :
    {Method Uri Map T : Type 0} → Request Method Uri Map T → HttpRequest Method Uri Map T
from_request req = record {
  method = req.method;
  uri = req.uri;
  headers = req.headers;
  body = req.body;
}

module _ {Name Value Map : Type 0} (maps : HeaderMaps Name Value Map) where
  -- `builder.header(h, v)` and `headers.append(k, v)`, which panic on a map that is full.
  unfoldable pub append_header : Name × Value → Map → Outcome Map
  append_header (name, value) headers = elim (maps.append name value headers) [
    | none ↦ panicked
    | some longer ↦ ok longer
  ]

  -- The loops over `headers.iter()`.
  unfoldable pub append_all : List (Name × Value) → Map → Outcome Map
  append_all [] headers = ok headers
  append_all (header ∷ rest) headers = do
    longer ← append_header header headers
    append_all rest longer

  -- `http::Request::from`.
  unfoldable pub into_request :
      {Method Uri T : Type 0} → HttpRequest Method Uri Map T → Outcome (Request Method Uri Map T)
  into_request req = do
    headers ← append_all (maps.iter req.headers) maps.empty
    ok (record { method = req.method; uri = req.uri; headers = headers; body = req.body })

  unfoldable pub into_response :
      {Status T : Type 0} → HttpResponseMeta Status Map → T → Outcome (Response Status Map T)
  into_response meta body = do
    headers ← append_all (maps.iter meta.headers) maps.empty
    ok (record { status = meta.status_code; headers = headers; body = body })

  -- What `start_request_executor` makes of the answer of the service, none for an error.
  unfoldable pub split_response :
      {Status T : Type 0}
      → Option (Response Status Map T)
      → Outcome (HttpResponseMeta Status Map × T)
  split_response none = failed
  split_response (some response) = do
    headers ← append_all (maps.iter response.headers) maps.empty
    ok (record { status_code = response.status; headers = headers }, response.body)

module _ {Uri Scheme Authority PathAndQuery : Type 0}
    (uris : Uris Uri Scheme Authority PathAndQuery) where
  unfoldable pub generate_url : Uri → PathAndQuery → Outcome Uri
  generate_url cluster_url request_p_and_q =
      let parts = uris.into_parts cluster_url in
      elim (uris.from_parts (record parts { path_and_query = some request_p_and_q })) [
        | none ↦ panicked
        | some url ↦ ok url
      ]

  -- The request with the URI of the cluster: `path_and_query().unwrap()` and `uri_mut`.
  unfoldable pub patch_uri :
      {Method Map T : Type 0} → Uri → Request Method Uri Map T → Outcome (Request Method Uri Map T)
  unfolding generate_url
  patch_uri cluster_url request = elim ((uris.into_parts request.uri).path_and_query) [
    | none ↦ panicked
    | some p ↦ (do url ← generate_url cluster_url p; ok (record request { uri = url }))
  ]

module _ {Name Value Map Uri Scheme Authority PathAndQuery : Type 0}
    (maps : HeaderMaps Name Value Map) (uris : Uris Uri Scheme Authority PathAndQuery) where
  -- `ready` says whether the service becomes ready, and `call` is what it then answers.
  unfoldable pub start_request_executor :
      {Method Status T Body : Type 0}
      → Bool
      → (Request Method Uri Map T → Option (Response Status Map Body))
      → Uri
      → Request Method Uri Map T
      → Outcome (HttpResponseMeta Status Map × Body)
  unfolding patch_uri split_response
  start_request_executor ready call cluster_url request = do
    patched ← patch_uri uris cluster_url request
    if ready then split_response maps (call patched) else failed

module _ {Name Value Map Wire : Type 0} (maps : HeaderMaps Name Value Map) where
  -- What the operator hands to the host: `bincode::serialize(&inner_request).unwrap()`.
  unfoldable pub send_request :
      {Method Uri T : Type 0}
      → (HttpRequest Method Uri Map T → Option Wire)
      → Request Method Uri Map T
      → Outcome Wire
  unfolding from_request
  send_request serialize req = elim (serialize (from_request req)) [
    | none ↦ panicked
    | some bytes ↦ ok bytes
  ]

  -- What the host makes of it.
  unfoldable pub receive_request :
      {Method Uri T : Type 0}
      → (Wire → Option (HttpRequest Method Uri Map T))
      → Wire
      → Outcome (Request Method Uri Map T)
  unfolding into_request
  receive_request deserialize bytes = elim (deserialize bytes) [
    | none ↦ panicked
    | some req ↦ into_request maps req
  ]

  -- The response that the operator puts together from the metadata and the body.
  unfoldable pub receive_response :
      {Status T : Type 0}
      → (Wire → Option (HttpResponseMeta Status Map))
      → Wire
      → T
      → Outcome (Response Status Map T)
  unfolding into_response
  receive_response deserialize response_raw body = elim (deserialize response_raw) [
    | none ↦ panicked
    | some meta ↦ into_response maps meta body
  ]
