-- ===== src/Response.antt =====
-- idempotent-proxy-server/src/cache/mod.rs: `ResponseData` and the two filters.
--
-- serde_json and ciborium are other packages: `Codec` is what the code calls of them. A method
-- that mutates the response returns the new one; with `?` it returns a result.
pub mod Names
pub mod Passed
pub mod Filters
pub mod Reply
mod Tests
use idempotent_proxy.Prelude.{
  ℕ, ◌≡◌, String, Bool, true, false, ◌||◌, ◌&&◌, not, Option, none, some, List, [], ◌∷◌, ◌++◌, any,
  is_empty, retain, Result, ok, err, ◌>>=◌, map_ok, if◌then◌else◌, leb, str_eq, split, trim,
  text_is_empty, to_ascii_lowercase, contains_text,
}
use idempotent_proxy.Headers.{HeaderMap}

pub record ResponseData : Type 0 where
  pub status : ℕ
  pub headers : List (String × String)
  pub body : List ℕ
  pub mime : String

-- `from_slice` and `Value::get` of serde_json, and `to_vec` of the map that the pairs make when
-- they are inserted in this order; `from_reader`, `into_map`, `as_text` and `into_writer` (of a
-- map) of ciborium; and its coding of a `ResponseData`.
pub record Codec : Type 1 where
  pub Json : Type 0
  pub json_from_slice : List ℕ → Result Json String
  pub json_get : String → Json → Option Json
  pub json_to_vec : List (String × Json) → Result (List ℕ) String
  pub Value : Type 0
  pub cbor_from_reader : List ℕ → Result Value String
  pub into_map : Value → Option (List (Value × Value))
  pub as_text : Value → Option String
  pub cbor_of_map : List (Value × Value) → Result (List ℕ) String
  pub response_to_bytes : ResponseData → Result (List ℕ) String
  pub response_from_bytes : List ℕ → Result ResponseData String

-- `ResponseData::new`.
abbrev pub new : ℕ → ResponseData
new status = record { status = status; headers = []; body = []; mime = "text/plain" }

keep_names : List String → List String
keep_names [] = []
keep_names (s ∷ l) =
    let name = trim s in if text_is_empty name then keep_names l else name ∷ keep_names l

unfoldable pub split_filtering : String → List String
unfolding keep_names
split_filtering filtering = keep_names (split b',' filtering)

abbrev pub contains : List String → String → Bool
contains names k = any (λ name. str_eq name k) names

-- The `match` of the loop in `with_headers`, for a header whose value is a text.
unfoldable pub push_header : List String → String → String → ResponseData → ResponseData
push_header filtering k v rd =
    if str_eq k "content-type"
    then record rd { mime = v }
    else if str_eq k "content-length" || str_eq k "transfer-encoding"
    then rd
    else if is_empty filtering || contains filtering k
    then record rd { headers = rd.headers ++ ((k, v) ∷ []) }
    else rd

module _ (hm : HeaderMap) where
  unfoldable pub push_headers : List String → List (String × hm.Value) → ResponseData → ResponseData
  push_headers filtering [] rd = rd
  push_headers filtering ((k, value) ∷ entries) rd =
      push_headers filtering entries
        (elim (hm.to_str value) [ none ↦ rd | some v ↦ push_header filtering k v rd ])

  unfoldable pub with_headers : hm.Map → String → ResponseData → ResponseData
  with_headers headers filtering rd =
      push_headers (split_filtering (to_ascii_lowercase filtering)) (hm.iter headers) rd

module _ (codec : Codec) where
  -- The loop over the names in the JSON case: the pairs that are inserted, in order.
  unfoldable pub json_pairs : List String → codec.Json → List (String × codec.Json)
  json_pairs [] obj = []
  json_pairs (k ∷ filtering) obj =
      let rest = json_pairs filtering obj in
      elim (codec.json_get k obj) [ none ↦ rest | some v ↦ (k, v) ∷ rest ]

  -- `v.0.as_text().is_some_and(|t| filtering.contains(&t))`
  abbrev pub has_kept_key : List String → codec.Value × codec.Value → Bool
  has_kept_key filtering entry = elim (codec.as_text entry.0) [
    | none ↦ false
    | some t ↦ contains filtering t
  ]

  -- The entries that the CBOR case writes; those of no map at all are none.
  unfoldable pub cbor_entries : List String → codec.Value → List (codec.Value × codec.Value)
  cbor_entries filtering obj = elim (codec.into_map obj) [
    | none ↦ []
    | some entries ↦ retain (has_kept_key filtering) entries
  ]

  unfoldable pub with_body : List ℕ → String → ResponseData → Result ResponseData String
  with_body body filter rd =
      let filtering = split_filtering filter in
      if leb 300 rd.status || is_empty filtering
      then ok (record rd { body = rd.body ++ body })
      else if contains_text "application/json" rd.mime
      then (codec.json_from_slice body >>= λ obj.
          codec.json_to_vec (json_pairs filtering obj) >>= λ bytes. ok (record rd { body = bytes }))
      else if contains_text "application/cbor" rd.mime
      then (codec.cbor_from_reader body >>= λ obj.
          codec.cbor_of_map (cbor_entries filtering obj) >>= λ bytes.
          ok (record rd { body = bytes }))
      else ok (record rd { body = rd.body ++ body })

  unfoldable pub to_bytes : ResponseData → Result (List ℕ) String
  to_bytes rd = codec.response_to_bytes rd

  unfoldable pub try_from : List ℕ → Result ResponseData String
  try_from value = codec.response_from_bytes value
