-- ===== src/Headers.antt =====
-- The `http` crate's `HeaderMap` and `HeaderValue`, as an interface: what the server calls.
--
-- `iter` lists the entries in the map's order, names in lower case. The laws are the crate's
-- documentation of `get`, `remove` and `values_mut`, in terms of `iter`.
use idempotent_proxy.Prelude.{
  ◌≡◌, refl, String, not, Option, none, some, List, [], ◌∷◌, retain, str_eq, lookup,
}

pub record HeaderMap : Type 1 where
  pub Map : Type 0
  pub Value : Type 0
  pub to_str : Value → Option String
  pub iter : Map → List (String × Value)
  pub get : String → Map → Option Value
  pub remove : String → Map → Map
  pub map_values : (Value → Value) → Map → Map

-- The entries with their values changed.
abbrev pub on_values : {V : Type 0} → (V → V) → List (String × V) → List (String × V)
on_values f [] = []
on_values f ((k, v) ∷ l) = (k, f v) ∷ on_values f l

-- The entries of other names.
abbrev pub without : {V : Type 0} → String → List (String × V) → List (String × V)
without name = retain (λ e. not (str_eq e.0 name))

pub record HeaderMapLaws (hm : HeaderMap) : Type 0 where
  pub get-iter : (name : String) (m : hm.Map) → hm.get name m ≡ lookup name (hm.iter m)
  pub iter-remove :
      (name : String) (m : hm.Map) → hm.iter (hm.remove name m) ≡ without name (hm.iter m)
  pub iter-map_values :
      (f : hm.Value → hm.Value) (m : hm.Map) → hm.iter (hm.map_values f m) ≡ on_values f (hm.iter m)

-- The names of headers, of idempotent-proxy-types/src/lib.rs.
abbrev pub header_proxy_authorization : String
header_proxy_authorization = "proxy-authorization"

abbrev pub header_x_forwarded_for : String
header_x_forwarded_for = "x-forwarded-for"

abbrev pub header_x_forwarded_host : String
header_x_forwarded_host = "x-forwarded-host"

abbrev pub header_x_forwarded_proto : String
header_x_forwarded_proto = "x-forwarded-proto"

abbrev pub header_idempotency_key : String
header_idempotency_key = "idempotency-key"

abbrev pub header_x_json_mask : String
header_x_json_mask = "x-json-mask"

abbrev pub header_response_headers : String
header_response_headers = "response-headers"

-- `extract_header` of idempotent-proxy-server/src/handler.rs, whose callers all default to "".
unfoldable pub extract_header : (hm : HeaderMap) → String → hm.Map → String
extract_header hm name m = elim (hm.get name m) [
  | none ↦ ""
  | some v ↦ elim (hm.to_str v) [ none ↦ "" | some s ↦ s ]
]

-- A header map as its list of entries, with texts for values.
abbrev pub list_headers : HeaderMap
list_headers = record {
  Map = List (String × String);
  Value = String;
  to_str = some;
  iter = λ m. m;
  get = lookup;
  remove = without;
  map_values = on_values;
}

pub list_headers-HeaderMapLaws : HeaderMapLaws list_headers
list_headers-HeaderMapLaws = record {
  get-iter = λ name m. refl;
  iter-remove = λ name m. refl;
  iter-map_values = λ f m. refl;
}
