-- ===== src/Http/Executor.antt =====
-- request_executor.rs: a request is sent to the cluster, and its response is split.
use wasm_operator.Base.{
  ◌≤◌, Bool, true, false, Option, none, some, length, ◌≡◌, refl, ap, ◌∙◌, if◌then◌else◌,
}
use wasm_operator.Base.Outcome.{Outcome, ok, failed, panicked, ◌>>=◌}
use wasm_operator.Http.Crate.{Uris, IsUris, HeaderMaps, IsHeaderMaps, Request, Response}
use wasm_operator.Http.Headers.{IsSame}
use wasm_operator.Http.Proxy.{split_response-ok}
use wasm_operator.Http.{
  HttpResponseMeta, split_response, generate_url, patch_uri, start_request_executor,
}

module _ {Name Value Map Uri Scheme Authority PathAndQuery : Type 0}
    (maps : HeaderMaps Name Value Map) (uris : Uris Uri Scheme Authority PathAndQuery)
    (map_laws : IsHeaderMaps maps) (uri_laws : IsUris uris) where
  -- The request as the API server gets it: for the cluster, with the path of the operator.
  pub record IsPatched {Method T : Type 0} (cluster_url : Uri) (p : PathAndQuery)
      (request patched : Request Method Uri Map T) : Type 0 where
    pub url :
        uris.into_parts patched.uri
        ≡ record (uris.into_parts cluster_url) { path_and_query = some p }
    pub rest : record patched { uri = request.uri } ≡ request

  patch_uri-IsPatched :
      {Method T : Type 0} (cluster_url : Uri) (request : Request Method Uri Map T) {s : Scheme}
      {a : Authority} {p : PathAndQuery}
      → (uris.into_parts cluster_url).scheme ≡ some s
      → (uris.into_parts cluster_url).authority ≡ some a
      → (uris.into_parts request.uri).path_and_query ≡ some p
      → (patched : Request Method Uri Map T) × (patch_uri uris cluster_url request ≡ ok patched)
        × IsPatched cluster_url p request patched
  unfolding patch_uri generate_url
  patch_uri-IsPatched cluster_url request {s} {a} {p} scheme authority path =
      let (url, made) = uri_laws.from_parts_complete s a p in
      let whole : record (uris.into_parts cluster_url) { path_and_query = some p }
          ≡ record { scheme = some s; authority = some a; path_and_query = some p } =
        cc in
      let joined : uris.from_parts
            (record (uris.into_parts cluster_url) { path_and_query = some p })
          ≡ some url =
        ap uris.from_parts whole ∙ made in
      (
        record request { uri = url },
        rw (path, patch_uri) (rw (joined, generate_url) refl),
        record { url = uri_laws.into_parts-from_parts _ joined; rest = refl },
      )

  executed :
      {Method Status T Body : Type 0} (ready : Bool)
      (call : Request Method Uri Map T → Option (Response Status Map Body)) (cluster_url : Uri)
      (request : Request Method Uri Map T) (x : Outcome (Request Method Uri Map T))
      → patch_uri uris cluster_url request ≡ x
      → start_request_executor maps uris ready call cluster_url request
        ≡ (x >>= λ patched. if ready then split_response maps (call patched) else failed)
  unfolding start_request_executor
  executed ready call cluster_url request x e =
      ap (λ y. y >>= λ patched. if ready then split_response maps (call patched) else failed) e

  -- What the executor does with a request, on every branch. It panics if the request has no path.
  -- If it has one, and the cluster's URL has a scheme and an authority, then exactly the request
  -- with the cluster's URL and the path of the operator is sent: the executor fails if the service
  -- does not become ready or answers with an error, and else, if the response has no more headers
  -- than a map has room for, it gives its status, its headers and its body.
  pub start_request_executor-cases :
      {Method Status T Body : Type 0} (ready : Bool)
      (call : Request Method Uri Map T → Option (Response Status Map Body)) (cluster_url : Uri)
      (request : Request Method Uri Map T) {s : Scheme} {a : Authority}
      → (uris.into_parts cluster_url).scheme ≡ some s
      → (uris.into_parts cluster_url).authority ≡ some a
      → let result = start_request_executor maps uris ready call cluster_url request in
        ((uris.into_parts request.uri).path_and_query ≡ none → result ≡ panicked)
        × ((p : PathAndQuery)
            → (uris.into_parts request.uri).path_and_query ≡ some p
            → (patched : Request Method Uri Map T) × IsPatched cluster_url p request patched
              × (ready ≡ false → result ≡ failed)
              × (ready ≡ true → call patched ≡ none → result ≡ failed)
              × ((response : Response Status Map Body)
                  → ready ≡ true
                  → call patched ≡ some response
                  → length (maps.iter response.headers) ≤ maps.max_size
                  → (meta : HttpResponseMeta Status Map) × (result ≡ ok (meta, response.body))
                    × (meta.status_code ≡ response.status)
                    × IsSame maps response.headers meta.headers))
  unfolding start_request_executor patch_uri
  start_request_executor-cases ready call cluster_url request scheme authority = (
    λ none_there.
        executed ready call cluster_url request panicked (rw (none_there, patch_uri) refl),
    λ p path.
        let (patched, sent, is) = patch_uri-IsPatched cluster_url request scheme authority path in
        (
          patched,
          is,
          λ off. executed ready call cluster_url request (ok patched) sent ∙ rw off refl,
          λ on refused.
              executed ready call cluster_url request (ok patched) sent
              ∙ rw (on, refused, split_response) refl,
          λ response on answered small.
              let (meta, split, status, same) = split_response-ok maps map_laws response small in
              (
                meta,
                executed ready call cluster_url request (ok patched) sent ∙ rw (on, answered) split,
                status,
                same,
              ),
        ),
  )
