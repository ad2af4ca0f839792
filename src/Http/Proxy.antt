-- ===== src/Http/Proxy.antt =====
-- A request on its way from the operator to the API server, and the response on its way back:
-- http_data.rs, and the `bincode` crate between
-- its two copies.
use wasm_operator.Base.{◌≤◌, Option, none, some, length, ◌≡◌, refl, ◌∙◌}
use mathlib.Core.Path.{subst}
use wasm_operator.Base.Outcome.{ok, panicked}
use wasm_operator.Http.Crate.{HeaderMaps, IsHeaderMaps, Request, Response}
use wasm_operator.Http.Headers.{IsSame, IsSame_trans, append_all-IsSame}
use wasm_operator.Http.{
  HttpRequest, HttpResponseMeta, from_request, into_request, into_response, split_response,
  send_request, receive_request, receive_response,
}

module _ {Name Value Map Wire : Type 0} (maps : HeaderMaps Name Value Map) where
  -- What was serialized comes back, the headers perhaps in another order.
  pub record IsRequestCodec {Method Uri T : Type 0}
      (serialize : HttpRequest Method Uri Map T → Option Wire)
      (deserialize : Wire → Option (HttpRequest Method Uri Map T)) : Type 0 where
    pub decoded :
        (r : HttpRequest Method Uri Map T) {bytes : Wire}
        → serialize r ≡ some bytes
        → (headers : Map) × (deserialize bytes ≡ some (record r { headers = headers }))
          × IsSame maps r.headers headers

  pub record IsMetaCodec {Status : Type 0} (serialize : HttpResponseMeta Status Map → Option Wire)
      (deserialize : Wire → Option (HttpResponseMeta Status Map)) : Type 0 where
    pub decoded :
        (r : HttpResponseMeta Status Map) {bytes : Wire}
        → serialize r ≡ some bytes
        → (headers : Map) × (deserialize bytes ≡ some (record r { headers = headers }))
          × IsSame maps r.headers headers

module _ {Name Value Map : Type 0} (maps : HeaderMaps Name Value Map)
    (laws : IsHeaderMaps maps) where
  pub split_response-ok :
      {Status Body : Type 0} (response : Response Status Map Body)
      → length (maps.iter response.headers) ≤ maps.max_size
      → (meta : HttpResponseMeta Status Map) × (split_response maps (some response)
          ≡ ok (meta, response.body))
        × (meta.status_code ≡ response.status)
        × IsSame maps response.headers meta.headers
  unfolding split_response
  split_response-ok response small =
      let (headers, copied, same) = append_all-IsSame maps laws response.headers small in
      (record { status_code = response.status; headers = headers }, rw copied refl, refl, same)

module _ {Name Value Map Wire : Type 0} (maps : HeaderMaps Name Value Map)
    (laws : IsHeaderMaps maps) where
  serialized :
      {bytes : Wire} (x : Option Wire)
      → (elim x [ none ↦ panicked | some b ↦ ok b ]) ≡ ok bytes
      → x ≡ some bytes
  serialized none e = cc
  serialized (some b) e = cc

  -- A request that the operator hands over, with no more headers than a map has room for, arrives
  -- at the host with the same method, URI and body, and with the same values for each header.
  pub send_request-receive_request :
      {Method Uri T : Type 0} {serialize : HttpRequest Method Uri Map T → Option Wire}
      {deserialize : Wire → Option (HttpRequest Method Uri Map T)}
      → IsRequestCodec maps serialize deserialize
      → (req : Request Method Uri Map T) {bytes : Wire}
      → length (maps.iter req.headers) ≤ maps.max_size
      → send_request maps serialize req ≡ ok bytes
      → (headers : Map) × (receive_request maps deserialize bytes
          ≡ ok (record req { headers = headers }))
        × IsSame maps req.headers headers
  unfolding send_request receive_request from_request into_request
  send_request-receive_request {serialize = serialize} codec req small sent =
      let (decoded, e, same) =
        codec.decoded (from_request req) (serialized (serialize (from_request req)) sent) in
      let (headers, copied, again) =
        append_all-IsSame maps laws decoded (subst (λ n. n ≤ maps.max_size) same.size small) in
      (
        headers,
        rw (e, receive_request, into_request, copied) refl,
        IsSame_trans maps laws same again,
      )

  -- A response with no more headers than a map has room for: the host splits it, and if the metadata
  -- are serialized, then the operator puts a response together from them and a body: with this body,
  -- the status of the API server, and the same values for each header.
  pub split_response-receive_response :
      {Status Body T : Type 0} {serialize : HttpResponseMeta Status Map → Option Wire}
      {deserialize : Wire → Option (HttpResponseMeta Status Map)}
      → IsMetaCodec maps serialize deserialize
      → (response : Response Status Map Body) (body : T)
      → length (maps.iter response.headers) ≤ maps.max_size
      → (meta : HttpResponseMeta Status Map) × (split_response maps (some response)
          ≡ ok (meta, response.body))
        × ((bytes : Wire)
            → serialize meta ≡ some bytes
            → (headers : Map) × (receive_response maps deserialize bytes body
                ≡ ok (record { status = response.status; headers = headers; body = body }))
              × IsSame maps response.headers headers)
  unfolding receive_response into_response
  split_response-receive_response codec response body small =
      let (meta, split, status, same) = split_response-ok maps laws response small in
      (
        meta,
        split,
        λ bytes sent.
            let (decoded, e, again) = codec.decoded meta sent in
            let room = subst (λ n. n ≤ maps.max_size) (same.size ∙ again.size) small in
            let (headers, copied, last) = append_all-IsSame maps laws decoded room in
            (
              headers,
              rw (e, receive_response, into_response, copied, status) refl,
              IsSame_trans maps laws same (IsSame_trans maps laws again last),
            ),
      )
