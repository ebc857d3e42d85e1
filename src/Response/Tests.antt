-- ===== src/Response/Tests.antt =====
-- The tests of cache/mod.rs, and the theorems at concrete inputs.
use idempotent_proxy.Prelude.{
  if◌then◌else◌, ltb, ◌==◌, str_eq, eq_iff, arith, ℕ, ◌≡◌, refl, ◌++◌, String, none, some, List, [],
  ◌∷◌, ok, err, All, split, trim, strip_prefix, starts_with, contains_text, to_ascii_lowercase,
  lookup,
}
use mathlib.Core.Option
use idempotent_proxy.Headers.{list_headers, without}
use idempotent_proxy.Response.{
  ResponseData, Codec, new, split_filtering, push_header, push_headers, with_headers, json_pairs,
  cbor_entries, with_body, to_bytes, try_from,
}
use idempotent_proxy.Response.Reply.{
  ReplyHeaders, ReplyHeadersLaws, Reply, into_response, relayed, relayed_type,
  into_response-with_headers,
}
use idempotent_proxy.Response.Filters.{IsMasked, with_body-IsMasked}

program : Unit {0}
unfolding split trim strip_prefix starts_with contains_text to_ascii_lowercase lookup
    split_filtering push_header push_headers with_headers json_pairs cbor_entries with_body to_bytes
    try_from
program = tt

filtering_tests :
    (split_filtering "" ≡ [])
    × (split_filtering "args,url" ≡ "args" ∷ "url" ∷ [])
    × (split_filtering "args, url" ≡ "args" ∷ "url" ∷ [])
unfolding program
filtering_tests = (refl, refl, refl)

abbrev upstream_headers : List (String × String)
upstream_headers =
    ("date", "Wed, 22 May 2024 11:11:17 GMT")
    ∷ ("content-length", "123")
    ∷ ("content-type", "application/json")
    ∷ ("server", "nginx")
    ∷ []

header_test :
    with_headers list_headers upstream_headers "Date, content-type, Content-Length" (new 200)
    ≡ record (new 200) {
      headers = ("date", "Wed, 22 May 2024 11:11:17 GMT") ∷ [];
      mime = "application/json";
    }
unfolding program
header_test = refl

-- A JSON value, and a CBOR map, is a list of members; the body is not looked at, and the output
-- counts the members.
abbrev small_codec : List (String × ℕ) → Codec
small_codec members = record {
  Json = List (String × ℕ);
  json_from_slice = λ b. ok members;
  json_get = λ k obj. Option.map (λ v. (k, v) ∷ []) (lookup k obj);
  json_to_vec = λ l. ok (counts l);
  Value = List (String × ℕ);
  cbor_from_reader = λ b. ok members;
  into_map = λ v. some (entries v);
  as_text = λ v. elim v [ [] ↦ none | m ∷ rest ↦ some m.0 ];
  cbor_of_map = λ l. ok (counts l);
  response_to_bytes = λ rd. ok (rd.status ∷ rd.body);
  response_from_bytes = λ b. elim b [
    | [] ↦ err "no bytes"
    | status ∷ body ↦ ok (record (new status) { body = body })
  ];
}
  where
    counts : {A : Type 0} → List A → List ℕ
    counts [] = []
    counts (x ∷ l) = 1 ∷ counts l

    entries : List (String × ℕ) → List (List (String × ℕ) × List (String × ℕ))
    entries [] = []
    entries (m ∷ l) = (m ∷ [], m ∷ []) ∷ entries l

abbrev members : List (String × ℕ)
members = ("args", 1) ∷ ("origin", 2) ∷ ("url", 3) ∷ []

abbrev codec : Codec
codec = small_codec members

abbrev json_response : ResponseData
json_response = record (new 200) { mime = "application/json; charset=utf-8" }

masked_test :
    with_body codec (9 ∷ 9 ∷ []) "args,url,Origin" json_response
    ≡ ok (record json_response { body = 1 ∷ 1 ∷ [] })
unfolding program
masked_test = refl

with_body-IsMasked_example :
    IsMasked codec (9 ∷ 9 ∷ []) (split_filtering "args,url,Origin") json_response (1 ∷ 1 ∷ [])
    × ◌≡◌ {A = ℕ} 200 200
    × ◌≡◌ {A = List (String × String)} [] []
    × ◌≡◌ {A = String} json_response.mime json_response.mime
with_body-IsMasked_example =
    with_body-IsMasked codec (9 ∷ 9 ∷ []) "args,url,Origin" json_response
      (record json_response { body = 1 ∷ 1 ∷ [] }) masked_test

-- A header map as its list of entries, for a response.
abbrev values_of : String → List (String × String) → List String
values_of name [] = []
values_of name ((k, v) ∷ m) = if str_eq k name then v ∷ values_of name m else values_of name m

abbrev push : String → String → List (String × String) → List (String × String)
push k v m = m ++ ((k, v) ∷ [])

abbrev reply_headers : ReplyHeaders list_headers
reply_headers = record {
  name_from_bytes = some;
  value_from_bytes = some;
  value_of_length = λ n. if n == 2 then "2" else "many";
  status_from_u16 = λ code. if ltb code 100 then none else some code;
  no_headers = [];
  append = push;
  insert = λ k v m. push k v (without k m);
  get_all = values_of;
}

values_of-push :
    (name k v : String) (m : List (String × String))
    → values_of name (push k v m)
      ≡ (if str_eq k name then values_of name m ++ (v ∷ []) else values_of name m)
values_of-push name k v [] = ground arith
values_of-push name k v ((j, u) ∷ m) = ground (arith, values_of-push name k v m)

values_of-without :
    (name k : String) (m : List (String × String))
    → values_of name (without k m) ≡ (if str_eq k name then [] else values_of name m)
values_of-without name k [] = ground arith
values_of-without name k ((j, u) ∷ m) =
    ground (arith, values_of-without name k m, eq_iff j k, eq_iff j name, eq_iff k name)

entries_named : (m : List (String × String)) → All (λ e. some e.0 ≡ some e.0) m
entries_named [] = tt
entries_named (e ∷ m) = (refl, entries_named m)

reply_headers-Laws : ReplyHeadersLaws list_headers reply_headers
reply_headers-Laws = record {
  get_all-no_headers = λ name. refl;
  get_all-append = values_of-push;
  get_all-insert = λ name k v m.
      ground (arith, values_of-push name k v (without k m), values_of-without name k m);
  names = entries_named;
  values = λ v t e. cc;
  text_plain = "text/plain";
  value-text_plain = refl;
}

into_response-with_headers_example :
    (reply : Reply list_headers reply_headers) × (into_response list_headers reply_headers
        (record (with_headers list_headers upstream_headers "date" (new 200)) { body = 1 ∷ 2 ∷ [] })
      ≡ some reply)
    × (reply.status ≡ 200)
    × (reply.body ≡ 1 ∷ 2 ∷ [])
    × ((name : String)
        → values_of name reply.headers ≡ (
            if str_eq "content-length" name
            then "2" ∷ []
            else if str_eq "content-type" name
            then relayed_type list_headers upstream_headers "text/plain" ∷ []
            else relayed list_headers name
                (split_filtering (to_ascii_lowercase "date"))
                upstream_headers))
into_response-with_headers_example =
    into_response-with_headers list_headers reply_headers reply_headers-Laws 200 upstream_headers
      "date" (1 ∷ 2 ∷ [])
