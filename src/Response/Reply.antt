-- ===== src/Response/Reply.antt =====
-- `into_response` of idempotent-proxy-server/src/cache/mod.rs: the response of the server.
--
-- The `http` crate's `HeaderMap`, `HeaderName`, `HeaderValue` and `StatusCode` are an interface,
-- with the laws of their documentation; a name is its text in lower case. `none` is a panic.
use idempotent_proxy.Prelude.{
  ℕ, ◌≡◌, refl, sym, All, ◌&&◌, String, Option, none, some, List, [], ◌∷◌, ◌++◌, length,
  if◌then◌else◌, str_eq, to_ascii_lowercase, Option-cases, Bool-cases, inl, inr, arith,
}
use mathlib.Core.List.{append_assoc, append-nil}
use idempotent_proxy.Headers.{HeaderMap}
use idempotent_proxy.Response.{ResponseData, new, with_headers, split_filtering}
use idempotent_proxy.Response.Passed.{passes, passed, last_mime, with_headers-passed}

module _ (hm : HeaderMap) where
  -- `from_bytes` of the names and the values, `from_u16` of the status codes, and the methods that
  -- the code uses of the header map of a new response.
  pub record ReplyHeaders : Type 0 where
    pub name_from_bytes : String → Option String
    pub value_from_bytes : String → Option hm.Value
    pub value_of_length : ℕ → hm.Value
    pub status_from_u16 : ℕ → Option ℕ
    pub no_headers : hm.Map
    pub append : String → hm.Value → hm.Map → hm.Map
    pub insert : String → hm.Value → hm.Map → hm.Map
    pub get_all : String → hm.Map → List hm.Value

  -- A value that has a text is the value of that text, and the names of a map are valid.
  pub record ReplyHeadersLaws (h : ReplyHeaders) : Type 0 where
    pub get_all-no_headers : (name : String) → h.get_all name h.no_headers ≡ []
    pub get_all-append :
        (name key : String) (v : hm.Value) (m : hm.Map)
        → h.get_all name (h.append key v m)
          ≡ (if str_eq key name then h.get_all name m ++ (v ∷ []) else h.get_all name m)
    pub get_all-insert :
        (name key : String) (v : hm.Value) (m : hm.Map)
        → h.get_all name (h.insert key v m) ≡ (if str_eq key name then v ∷ [] else h.get_all name m)
    pub names : (m : hm.Map) → All (λ e. h.name_from_bytes e.0 ≡ some e.0) (hm.iter m)
    pub values : (v : hm.Value) (t : String) → hm.to_str v ≡ some t → h.value_from_bytes t ≡ some v
    pub text_plain : hm.Value
    pub value-text_plain : h.value_from_bytes "text/plain" ≡ some text_plain

module _ (hm : HeaderMap) (h : ReplyHeaders hm) where
  pub record Reply : Type 0 where
    pub status : ℕ
    pub headers : hm.Map
    pub body : List ℕ

  -- The loop over the headers.
  unfoldable pub append_headers : List (String × String) → hm.Map → Option hm.Map
  append_headers [] m = some m
  append_headers ((k, v) ∷ headers) m = elim (h.name_from_bytes k) [
    | none ↦ none
    | some name ↦ elim (h.value_from_bytes v) [
      | none ↦ none
      | some value ↦ append_headers headers (h.append name value m)
    ]
  ]

  unfoldable pub into_response : ResponseData → Option Reply
  into_response rd = elim (append_headers rd.headers h.no_headers) [
    | none ↦ none
    | some headers ↦ elim (h.value_from_bytes rd.mime) [
      | none ↦ none
      | some mime ↦ some (record {
        status = elim (h.status_from_u16 rd.status) [ none ↦ 200 | some status ↦ status ];
        headers =
            h.insert "content-length" (h.value_of_length (length rd.body))
              (h.insert "content-type" mime headers);
        body = rd.body;
      })
    ]
  ]

module _ (hm : HeaderMap) where
  -- The values under a name that the filter lets through, in their order.
  abbrev pub relayed : String → List String → List (String × hm.Value) → List hm.Value
  relayed name filtering [] = []
  relayed name filtering ((k, v) ∷ entries) = elim (hm.to_str v) [
    | none ↦ relayed name filtering entries
    | some t ↦
        if str_eq k name && passes filtering k
        then v ∷ relayed name filtering entries
        else relayed name filtering entries
  ]

  -- The last content type that is a text, or the default.
  abbrev pub relayed_type : List (String × hm.Value) → hm.Value → hm.Value
  relayed_type [] default = default
  relayed_type ((k, v) ∷ entries) default = elim (hm.to_str v) [
    | none ↦ relayed_type entries default
    | some t ↦ relayed_type entries (if str_eq k "content-type" then v else default)
  ]

  module _ (h : ReplyHeaders hm) (laws : ReplyHeadersLaws hm h) where
    append_headers-passed :
        (filtering : List String) (entries : List (String × hm.Value)) (m : hm.Map)
        → All (λ e. h.name_from_bytes e.0 ≡ some e.0) entries
        → (m' : hm.Map) × (append_headers hm h (passed hm filtering entries) m ≡ some m')
          × ((name : String)
              → h.get_all name m' ≡ h.get_all name m ++ relayed name filtering entries)
    unfolding append_headers
    append_headers-passed filtering [] m valid = (m, refl, λ name. sym (append-nil _))
    append_headers-passed filtering ((k, v) ∷ entries) m (named, valid) =
        elim (Option-cases (hm.to_str v)) [
          | inl opaque ↦
              let (m', appended, all) = append_headers-passed filtering entries m valid in
              (m', rw (opaque, passed) appended, λ name. rw (opaque, relayed) (all name))
          | inr (t, text) ↦ elim (Bool-cases (passes filtering k)) [
            | inl kept ↦
                let (m', appended, all) =
                  append_headers-passed filtering entries (h.append k v m) valid in
                (
                  m',
                  ground (arith, text, kept, named, laws.values v t text, appended),
                  λ name. ground (
                    arith,
                    text,
                    kept,
                    all name,
                    laws.get_all-append name k v m,
                    append_assoc (h.get_all name m) (v ∷ []) (relayed name filtering entries),
                  ),
                )
            | inr dropped ↦
                let (m', appended, all) = append_headers-passed filtering entries m valid in
                (
                  m',
                  ground (arith, text, dropped, appended),
                  λ name. ground (arith, text, dropped, all name),
                )
          ]
        ]

    value-last_mime :
        (entries : List (String × hm.Value)) (mime : String) (default : hm.Value)
        → h.value_from_bytes mime ≡ some default
        → h.value_from_bytes (last_mime hm entries mime) ≡ some (relayed_type entries default)
    value-last_mime [] mime default parsed = parsed
    value-last_mime ((k, v) ∷ entries) mime default parsed = elim (Option-cases (hm.to_str v)) [
      | inl opaque ↦
          rw (opaque, last_mime)
            (rw (opaque, relayed_type) (value-last_mime entries mime default parsed))
      | inr (t, text) ↦
          rw (text, last_mime)
            (rw (text, relayed_type)
              (value-last_mime entries (if str_eq k "content-type" then t else mime)
                (if str_eq k "content-type" then v else default)
                (ground (arith, parsed, laws.values v t text))))
    ]

    -- What the client gets of the upstream, where the header map does as its crate documents. The
    -- response that is made of the upstream's status,
    -- headers and body never panics; it has the upstream's status, or 200 where that is no
    -- status code, and that body. Under "content-length" it has the body's length alone, and under
    -- "content-type" the upstream's last one that is a text alone, or "text/plain"; under every
    -- other name, the upstream's values that are texts, in their order, if the filter passes the
    -- name, and else none.
    pub into_response-with_headers :
        (status : ℕ) (headers : hm.Map) (filter : String) (body : List ℕ)
        → (reply : Reply hm h) × (into_response hm h
              (record (with_headers hm headers filter (new status)) { body = body })
            ≡ some reply)
          × (reply.status ≡ elim (h.status_from_u16 status) [ none ↦ 200 | some code ↦ code ])
          × (reply.body ≡ body)
          × ((name : String)
              → h.get_all name reply.headers ≡ (
                  if str_eq "content-length" name
                  then h.value_of_length (length body) ∷ []
                  else if str_eq "content-type" name
                  then relayed_type (hm.iter headers) laws.text_plain ∷ []
                  else relayed name
                      (split_filtering (to_ascii_lowercase filter))
                      (hm.iter headers)))
    unfolding into_response
    into_response-with_headers status headers filter body =
        let (kept, mime, _, same) = with_headers-passed hm headers filter (new status) in
        let (m, appended, all) =
          append_headers-passed (split_filtering (to_ascii_lowercase filter)) (hm.iter headers)
            h.no_headers (laws.names headers) in
        let typed =
          value-last_mime (hm.iter headers) "text/plain" laws.text_plain laws.value-text_plain in
        (
          record {
            status = elim (h.status_from_u16 status) [ none ↦ 200 | some code ↦ code ];
            headers =
                h.insert "content-length" (h.value_of_length (length body))
                  (h.insert "content-type" (relayed_type (hm.iter headers) laws.text_plain) m);
            body = body;
          },
          rw (kept, into_response) (rw appended (rw mime (rw typed (rw same refl)))),
          refl,
          refl,
          λ name. ground (
            arith,
            laws.get_all-insert name "content-length" (h.value_of_length (length body))
                (h.insert "content-type" (relayed_type (hm.iter headers) laws.text_plain) m),
            laws.get_all-insert name "content-type" (relayed_type (hm.iter headers) laws.text_plain)
                m,
            all name,
            laws.get_all-no_headers name,
          ),
        )
