-- ===== src/Http/Tests.antt =====
-- Runs of the definitions for HTTP, with header maps that are lists, and URIs that are their parts.
use wasm_operator.Base.{
  ℕ, ◌≤◌, Bool, true, false, Option, none, some, some_injective, List, [], ◌∷◌, ◌++◌, ◌≡◌, refl,
  sym, ap, ◌∙◌, arith, length, length-append, if_some, ltb, ◌==◌, if◌then◌else◌,
}
use mathlib.Core.List.{append_assoc, append-nil}
use wasm_operator.Base.Outcome.{Outcome, ok, failed, panicked}
use wasm_operator.Http.Crate.{
  Parts, Uris, IsUris, HeaderMaps, IsHeaderMaps, values_of, Request, Response,
}
use wasm_operator.Http.Headers.{IsSame}
use wasm_operator.Http.{
  HttpRequest, HttpResponseMeta, split_response, start_request_executor, send_request,
  receive_request, receive_response, from_request,
}
use wasm_operator.Http.Proxy.{
  IsRequestCodec, IsMetaCodec, send_request-receive_request, split_response-receive_response,
}
use wasm_operator.Http.Executor.{IsPatched, start_request_executor-cases}

abbrev Headers : Type 0
Headers = List (ℕ × ℕ)

abbrev headers_limit : ℕ
headers_limit = 4

abbrev header_lists : HeaderMaps ℕ ℕ Headers
header_lists = record {
  same_name = λ a b. a == b;
  max_size = headers_limit;
  empty = [];
  append =
      λ name value m. if ltb (length m) headers_limit then some (m ++ (name, value) ∷ []) else none;
  iter = λ m. m;
  get_all = λ name m. values_of (λ other. name == other) m;
}

appended :
    (name value : ℕ) (m m' : Headers)
    → header_lists.append name value m ≡ some m'
    → m' ≡ m ++ (name, value) ∷ []
appended name value m m' e =
    sym (if_some (ltb (length m) headers_limit) (m ++ (name, value) ∷ []) e).1

values_of-append :
    (is_name : ℕ → Bool) (xs ys : Headers)
    → values_of is_name (xs ++ ys) ≡ values_of is_name xs ++ values_of is_name ys
values_of-append is_name [] ys = refl
values_of-append is_name ((name, value) ∷ xs) ys =
    ap (λ vs. (if is_name name then value ∷ [] else []) ++ vs) (values_of-append is_name xs ys)
    ∙ sym (
        append_assoc (if is_name name then value ∷ [] else []) (values_of is_name xs)
          (values_of is_name ys))

header_lists-IsHeaderMaps : IsHeaderMaps header_lists
header_lists-IsHeaderMaps = record {
  get_all-iter = λ name m. refl;
  iter-empty = refl;
  append_room = λ name value m room. (m ++ (name, value) ∷ [], ground (arith, room));
  get_all-append = λ name value m e other.
      ap (values_of (λ n. other == n)) (appended name value m _ e)
      ∙ values_of-append (λ n. other == n) m ((name, value) ∷ [])
      ∙ ap (λ vs. values_of (λ n. other == n) m ++ vs) (append-nil _);
  length-append = λ name value m e.
      let same = ap length (appended name value m _ e) in
      let sum = length-append m ((name, value) ∷ []) in omega (arith, same, sum);
}

abbrev Url : Type 0
Url = Parts ℕ ℕ ℕ

abbrev urls : Uris Url ℕ ℕ ℕ
urls = record { into_parts = λ u. u; from_parts = λ parts. some parts }

urls-IsUris : IsUris urls
urls-IsUris = record {
  into_parts-from_parts = λ parts e. sym (some_injective e);
  from_parts_complete = λ scheme authority p.
      (record { scheme = some scheme; authority = some authority; path_and_query = some p }, refl);
}

abbrev cluster : Url
cluster = record { scheme = some 1; authority = some 10; path_and_query = some 0 }

abbrev a_request : Request ℕ Url Headers ℕ
a_request = record {
  method = 3;
  uri = record { scheme = none; authority = none; path_and_query = some 7 };
  headers = (5, 50) ∷ (6, 60) ∷ (5, 51) ∷ [];
  body = 9;
}

abbrev a_response : Response ℕ Headers ℕ
a_response = record { status = 200; headers = (5, 52) ∷ []; body = 11 }

-- A codec that leaves everything as it is.
abbrev Wire : Type 0
Wire = HttpRequest ℕ Url Headers ℕ

abbrev keep_request : Wire → Option Wire
keep_request r = some r

abbrev same_headers : (m : Headers) → IsSame header_lists m m
same_headers m = record { values = λ name. refl; size = refl }

requests-IsRequestCodec : IsRequestCodec header_lists keep_request keep_request
requests-IsRequestCodec = record {
  decoded = λ r e. (r.headers, ap some (sym (some_injective e)), same_headers r.headers);
}

send_request-receive_request_example :
    (headers : Headers) × (receive_request header_lists keep_request (from_request a_request)
      ≡ ok (record a_request { headers = headers }))
    × IsSame header_lists a_request.headers headers
unfolding send_request
send_request-receive_request_example =
    send_request-receive_request header_lists header_lists-IsHeaderMaps requests-IsRequestCodec
      a_request (omega arith) refl

abbrev full_body : ℕ
full_body = 12

abbrev MetaWire : Type 0
MetaWire = HttpResponseMeta ℕ Headers

abbrev keep_meta : MetaWire → Option MetaWire
keep_meta meta = some meta

metas-IsMetaCodec : IsMetaCodec header_lists keep_meta keep_meta
metas-IsMetaCodec = record {
  decoded = λ r e. (r.headers, ap some (sym (some_injective e)), same_headers r.headers);
}

split_response-receive_response_example :
    (meta : MetaWire) × (split_response header_lists (some a_response) ≡ ok (meta, 11))
    × ((bytes : MetaWire)
        → keep_meta meta ≡ some bytes
        → (headers : Headers) × (receive_response header_lists keep_meta bytes full_body
            ≡ ok (record { status = 200; headers = headers; body = full_body }))
          × IsSame header_lists a_response.headers headers)
split_response-receive_response_example =
    split_response-receive_response header_lists header_lists-IsHeaderMaps metas-IsMetaCodec
      a_response full_body (omega arith)

-- An API server that answers each request in the same way.
abbrev call : Request ℕ Url Headers ℕ → Option (Response ℕ Headers ℕ)
call request = some a_response

abbrev result : Outcome (HttpResponseMeta ℕ Headers × ℕ)
result = start_request_executor header_lists urls true call cluster a_request

start_request_executor-cases_example :
    (a_request.uri.path_and_query ≡ none → result ≡ panicked)
    × ((p : ℕ)
        → a_request.uri.path_and_query ≡ some p
        → (patched : Request ℕ Url Headers ℕ) × IsPatched header_lists urls
            header_lists-IsHeaderMaps urls-IsUris cluster p a_request patched
          × (true ≡ false → result ≡ failed)
          × (true ≡ true → call patched ≡ none → result ≡ failed)
          × ((response : Response ℕ Headers ℕ)
              → true ≡ true
              → call patched ≡ some response
              → length response.headers ≤ headers_limit
              → (meta : HttpResponseMeta ℕ Headers) × (result ≡ ok (meta, response.body))
                × (meta.status_code ≡ response.status)
                × IsSame header_lists response.headers meta.headers))
start_request_executor-cases_example =
    start_request_executor-cases header_lists urls header_lists-IsHeaderMaps urls-IsUris true call
      cluster a_request {s = 1} {a = 10} refl refl
