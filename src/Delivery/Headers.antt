-- ===== src/Delivery/Headers.antt =====
-- The headers of a request that is built, as the proxy reads them.
use idempotent_proxy.Prelude.{
  ◌≡◌, refl, ap, ◌∙◌, String, false, Option, some, List, [], ◌∷◌, ◌++◌, any, if◌then◌else◌,
  to_ascii_lowercase, join, inl, inr, Bool-cases, arith,
}
use idempotent_proxy.Canister.Types.{HttpHeader}
use idempotent_proxy.Canister.Agent.{has_header}
use idempotent_proxy.Canister.Agent.Requests.{token_headers, default_headers}
use idempotent_proxy.Delivery.{is_named, first_header}

first_header-skip :
    (name : String) (l m : List HttpHeader)
    → any (is_named name) l ≡ false
    → first_header name (l ++ m) ≡ first_header name m
first_header-skip name [] m h = refl
first_header-skip name (a ∷ l) m h = elim (Bool-cases (is_named name a)) [
  | inl same ↦ absurd (ground arith)
  | inr other ↦ ground (arith, first_header-skip name l m)
]

first_header-keep :
    (name : String) (l m : List HttpHeader)
    → any (is_named name) m ≡ false
    → first_header name (l ++ m) ≡ first_header name l
first_header-keep name [] [] h = refl
first_header-keep name [] (b ∷ m) h = elim (Bool-cases (is_named name b)) [
  | inl same ↦ absurd (ground arith)
  | inr other ↦ ground (arith, first_header-keep name [] m)
]
first_header-keep name (a ∷ l) m h = ap (if_named a) (first_header-keep name l m h)
  where
    if_named : HttpHeader → String → String
    if_named b rest = if is_named name b then b.value else rest

any-append :
    (name : String) (l m : List HttpHeader)
    → any (is_named name) l ≡ false
    → any (is_named name) m ≡ false
    → any (is_named name) (l ++ m) ≡ false
any-append name [] m none_l none_m = none_m
any-append name (a ∷ l) m none_l none_m = elim (Bool-cases (is_named name a)) [
  | inl same ↦ absurd (ground arith)
  | inr other ↦ ground (arith, any-append name l m)
]

default_headers-other :
    (name : String) (l : List HttpHeader)
    → any (is_named name) (record { name = "response-headers"; value = "date" } ∷ []) ≡ false
    → any (is_named name) (default_headers l) ≡ false
default_headers-other name l other = elim (Bool-cases (has_header "response-headers" l)) [
  | inl set ↦ rw set refl
  | inr unset ↦ rw unset other
]

-- The headers of a request that is built, with those that the route adds.
abbrev pub built_headers : Option String → List HttpHeader → List HttpHeader → List HttpHeader
built_headers token l added = (l ++ added) ++ (default_headers (l ++ added) ++ token_headers token)

module _ (l added : List HttpHeader) (token : String) where
  pub built_token :
      any (is_named "proxy-authorization") l ≡ false
      → any (is_named "proxy-authorization") added ≡ false
      → first_header "proxy-authorization" (built_headers (some token) l added)
        ≡ join ("Bearer " ∷ token ∷ [])
  unfolding to_ascii_lowercase
  built_token none_given none_added =
      first_header-skip _ (l ++ added) _ (any-append _ l added none_given none_added)
      ∙ first_header-skip _ (default_headers (l ++ added)) _
          (default_headers-other _ (l ++ added) refl)

  -- A header that neither the default nor the token sets.
  built_other :
      (name : String)
      → any (is_named name) (record { name = "response-headers"; value = "date" } ∷ []) ≡ false
      → any (is_named name) (record { name = "proxy-authorization"; value = "" } ∷ []) ≡ false
      → first_header name (built_headers (some token) l added) ≡ first_header name (l ++ added)
  built_other name not_default not_token = first_header-keep name (l ++ added) _ (
      any-append name (default_headers (l ++ added)) _
        (default_headers-other name (l ++ added) not_default) not_token)

  pub built_key :
      any (is_named "idempotency-key") added ≡ false
      → first_header "idempotency-key" (built_headers (some token) l added)
        ≡ first_header "idempotency-key" l
  unfolding to_ascii_lowercase
  built_key none_added =
      built_other "idempotency-key" refl refl
      ∙ first_header-keep "idempotency-key" l added none_added

pub built_host :
    (l : List HttpHeader) (host token : String)
    → any (is_named "x-forwarded-host") l ≡ false
    → first_header "x-forwarded-host"
        (built_headers (some token) l (record { name = "x-forwarded-host"; value = host } ∷ []))
      ≡ host
unfolding to_ascii_lowercase
built_host l host token none_given =
    built_other l (record { name = "x-forwarded-host"; value = host } ∷ []) token "x-forwarded-host"
      refl refl
    ∙ first_header-skip "x-forwarded-host" l _ none_given
