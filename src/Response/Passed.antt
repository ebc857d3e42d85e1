-- ===== src/Response/Passed.antt =====
-- What the header filter lets through.
use idempotent_proxy.Prelude.{
  ◌≡◌, refl, inl, inr, String, Bool, ◌||◌, ◌&&◌, not, none, some, List, [], ◌∷◌, ◌++◌, is_empty,
  if◌then◌else◌, str_eq, eq_iff, Option-cases, arith, to_ascii_lowercase, sym,
}
use mathlib.Core.List.{append_assoc, append-nil}
use idempotent_proxy.Headers.{HeaderMap}
use idempotent_proxy.Response.{
  ResponseData, split_filtering, contains, push_header, push_headers, with_headers,
}

-- The specification of the header filter: which text headers are passed on.
abbrev pub passes : List String → String → Bool
passes filtering k =
    not (str_eq k "content-type" || (str_eq k "content-length" || str_eq k "transfer-encoding"))
    && (is_empty filtering || contains filtering k)

push_header-passes :
    (filtering : List String) (k v : String) (rd : ResponseData)
    → ((push_header filtering k v rd).headers
        ≡ (if passes filtering k then rd.headers ++ ((k, v) ∷ []) else rd.headers))
      × ((push_header filtering k v rd).mime ≡ (if str_eq k "content-type" then v else rd.mime))
      × ((push_header filtering k v rd).body ≡ rd.body)
      × ((push_header filtering k v rd).status ≡ rd.status)
unfolding push_header
push_header-passes filtering k v rd =
    ground (arith, eq_iff k "content-type", eq_iff k "content-length", eq_iff k "transfer-encoding")

module _ (hm : HeaderMap) where
  -- The entries whose value is a text and whose name passes, in their order.
  abbrev pub passed : List String → List (String × hm.Value) → List (String × String)
  passed filtering [] = []
  passed filtering ((k, value) ∷ entries) = elim (hm.to_str value) [
    | none ↦ passed filtering entries
    | some v ↦
        if passes filtering k then (k, v) ∷ passed filtering entries else passed filtering entries
  ]

  -- The last text value of "content-type", or the default.
  abbrev pub last_mime : List (String × hm.Value) → String → String
  last_mime [] mime = mime
  last_mime ((k, value) ∷ entries) mime = elim (hm.to_str value) [
    | none ↦ last_mime entries mime
    | some v ↦ last_mime entries (if str_eq k "content-type" then v else mime)
  ]

  push_headers-passed :
      (filtering : List String) (entries : List (String × hm.Value)) (rd : ResponseData)
      → ((push_headers hm filtering entries rd).headers ≡ rd.headers ++ passed filtering entries)
        × ((push_headers hm filtering entries rd).mime ≡ last_mime entries rd.mime)
        × ((push_headers hm filtering entries rd).body ≡ rd.body)
        × ((push_headers hm filtering entries rd).status ≡ rd.status)
  unfolding push_headers
  push_headers-passed filtering [] rd = (sym (append-nil rd.headers), refl, refl, refl)
  push_headers-passed filtering ((k, value) ∷ entries) rd = elim (Option-cases (hm.to_str value)) [
    | inl opaque ↦
        rw (opaque, push_headers)
          (rw (opaque, passed) (rw (opaque, last_mime) (push_headers-passed filtering entries rd)))
    | inr (v, text) ↦
        let rd' = push_header filtering k v rd in
        let (headers, mime, body, status) = push_headers-passed filtering entries rd' in
        let (headers', mime', body', status') = push_header-passes filtering k v rd in
        ground (arith, append_assoc rd.headers ((k, v) ∷ []) (passed filtering entries))
  ]

-- `with_headers` appends exactly the headers that pass, in their order: those with a text value,
-- except the content type, the content length and the transfer encoding, and among the names of
-- the filter (in lower case) unless that lists none. The last text "content-type" becomes the
-- mime type; the body and the status stay.
pub with_headers-passed :
    (hm : HeaderMap) (headers : hm.Map) (filtering : String) (rd : ResponseData)
    → ((with_headers hm headers filtering rd).headers
        ≡ rd.headers
          ++ passed hm (split_filtering (to_ascii_lowercase filtering)) (hm.iter headers))
      × ((with_headers hm headers filtering rd).mime ≡ last_mime hm (hm.iter headers) rd.mime)
      × ((with_headers hm headers filtering rd).body ≡ rd.body)
      × ((with_headers hm headers filtering rd).status ≡ rd.status)
unfolding with_headers
with_headers-passed hm headers filtering rd =
    push_headers-passed hm (split_filtering (to_ascii_lowercase filtering)) (hm.iter headers) rd
