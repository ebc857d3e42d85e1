-- ===== src/Response/Filters.antt =====
-- What the body filter lets through.
use idempotent_proxy.Prelude.{
  ℕ, ◌≡◌, ◌↔◌, ◌⊎◌, inl, inr, ◌≤◌, ◌<◌, String, Bool, true, false, ◌||◌, Option, some, List, [],
  ◌∷◌, ◌++◌, is_empty, retain, ok, leb, Member, Bool-cases, Option-cases, Result-cases, arith,
  contains_text, ◌∙◌, sym, ap, str_eq, eq_iff,
}
use idempotent_proxy.Response.{
  ResponseData, Codec, split_filtering, json_pairs, contains, has_kept_key, cbor_entries, with_body,
}

Member-of_retain :
    {A : Type 0} (p : A → Bool) (a : A) (l : List A)
    → Member a (retain p l)
    → Member a l × (p a ≡ true)
Member-of_retain p a [] m = absurd m
Member-of_retain p a (b ∷ l) m = elim (Bool-cases (p b)) [
  | inl kept ↦ elim (rw (kept, retain) at m) [
    | inl e ↦ (inl e, ap p e ∙ kept)
    | inr m' ↦ let (listed, holds) = Member-of_retain p a l m' in (inr listed, holds)
  ]
  | inr dropped ↦
      let (listed, holds) = Member-of_retain p a l (rw (dropped, retain) at m) in
      (inr listed, holds)
]

Member-retain :
    {A : Type 0} (p : A → Bool) (a : A) (l : List A)
    → Member a l
    → p a ≡ true
    → Member a (retain p l)
Member-retain p a [] m h = absurd m
Member-retain p a (b ∷ l) (inl e) h = rw (sym (ap p e) ∙ h, retain) (inl e)
Member-retain p a (b ∷ l) (inr m) h = elim (Bool-cases (p b)) [
  | inl kept ↦ rw (kept, retain) (inr (Member-retain p a l m h))
  | inr dropped ↦ rw (dropped, retain) (Member-retain p a l m h)
]

contains_iff : (names : List String) (t : String) → (contains names t ≡ true) ↔ Member t names
contains_iff [] t = (λ h. absurd (ground (arith, h)), λ m. absurd m)
contains_iff (name ∷ names) t = (
  λ h. elim (Bool-cases (str_eq name t)) [
    | inl same ↦ inl (sym ((eq_iff name t).0 same))
    | inr other ↦ inr ((contains_iff names t).0 (ground (arith, other, h)))
  ],
  λ m. elim m [
    | inl e ↦ ground (arith, (eq_iff name t).1 (sym e))
    | inr later ↦ ground (arith, (contains_iff names t).1 later)
  ],
)

module _ (codec : Codec) where
  open codec use {
    Json, json_get, json_from_slice, json_to_vec, Value, cbor_from_reader, cbor_of_map, into_map,
    as_text,
  }

  json_pairs_sound :
      (filtering : List String) (obj : Json) (k : String) (v : Json)
      → Member (k, v) (json_pairs codec filtering obj)
      → Member k filtering × (json_get k obj ≡ some v)
  unfolding json_pairs
  json_pairs_sound [] obj k v m = absurd m
  json_pairs_sound (name ∷ filtering) obj k v m = elim (Option-cases (json_get name obj)) [
    | inl missing ↦
        let (listed, found) = json_pairs_sound filtering obj k v (rw (missing, json_pairs) at m) in
        (inr listed, found)
    | inr (w, found) ↦ elim (rw (found, json_pairs) at m) [
      | inl e ↦
          let same : k ≡ name = ap (λ (p : String × Json). p.0) e in
          let value : v ≡ w = ap (λ (p : String × Json). p.1) e in
          (inl same, ap (λ n. json_get n obj) same ∙ found ∙ ap {B = Option Json} some (sym value))
      | inr m' ↦
          let (listed, found') = json_pairs_sound filtering obj k v m' in (inr listed, found')
    ]
  ]

  json_pairs_complete :
      (filtering : List String) (obj : Json) (k : String) (v : Json)
      → Member k filtering
      → json_get k obj ≡ some v
      → Member (k, v) (json_pairs codec filtering obj)
  unfolding json_pairs
  json_pairs_complete [] obj k v m found = absurd m
  json_pairs_complete (name ∷ filtering) obj k v (inl same) found =
      rw (ap (λ n. json_get n obj) (sym same) ∙ found, json_pairs) (inl (λ i. (same i, v)))
  json_pairs_complete (name ∷ filtering) obj k v (inr m) found =
      elim (Option-cases (json_get name obj)) [
        | inl missing ↦ rw (missing, json_pairs) (json_pairs_complete filtering obj k v m found)
        | inr (w, here) ↦
            rw (here, json_pairs) (inr (json_pairs_complete filtering obj k v m found))
      ]

  -- The JSON mask. The pairs that are written are exactly the members of the parsed body whose
  -- key the filter lists, each with its value in the body.
  json_pairs_iff :
      (filtering : List String) (obj : Json) (k : String) (v : Json)
      → Member (k, v) (json_pairs codec filtering obj)
        ↔ (Member k filtering × (json_get k obj ≡ some v))
  json_pairs_iff filtering obj k v = (
    json_pairs_sound filtering obj k v,
    λ (m, found). json_pairs_complete filtering obj k v m found,
  )

  -- The members of a JSON value whose key is one of the names, each with its value.
  abbrev pub AreMembers : List String → Json → List (String × Json) → Type 0
  AreMembers names obj pairs =
      (k : String) (v : Json) → Member (k, v) pairs ↔ (Member k names × (json_get k obj ≡ some v))

  -- The entries of a CBOR map whose key is a text that is one of the names; of no map at all, none.
  abbrev pub AreEntries : List String → Value → List (Value × Value) → Type 0
  AreEntries names obj kept =
      (e : Value × Value)
      → Member e kept ↔ (
          (entries : List (Value × Value)) × (into_map obj ≡ some entries)
          × Member e entries
          × (t : String) × (as_text e.0 ≡ some t)
          × Member t names)

  has_kept_key_iff :
      (names : List String) (e : Value × Value)
      → (has_kept_key codec names e ≡ true)
        ↔ ((t : String) × (as_text e.0 ≡ some t) × Member t names)
  has_kept_key_iff names e = (
    λ h. elim (Option-cases (as_text e.0)) [
      | inl no_text ↦ absurd (ground (arith, no_text, h))
      | inr (t, text) ↦ (t, text, (contains_iff names t).0 (ground (arith, text, h)))
    ],
    λ (t, text, m). ground (arith, text, (contains_iff names t).1 m),
  )

  -- The CBOR mask. The entries that are written are exactly those of the parsed map whose key is a
  -- text that the filter lists.
  cbor_entries-AreEntries :
      (names : List String) (obj : Value) → AreEntries names obj (cbor_entries codec names obj)
  unfolding cbor_entries
  cbor_entries-AreEntries names obj e = elim (Option-cases (into_map obj)) [
    | inl no_map ↦ (
      λ m. absurd (rw (no_map, cbor_entries) at m),
      λ (entries, map, m, t, text, listed). absurd (ground (arith, no_map, map)),
    )
    | inr (entries, map) ↦ (
      λ m.
          let (there, kept) =
            Member-of_retain (has_kept_key codec names) e entries (rw (map, cbor_entries) at m) in
          let (t, text, listed) = (has_kept_key_iff names e).0 kept in
          (entries, map, there, t, text, listed),
      λ (entries', map', m, t, text, listed).
          let same : entries' ≡ entries = ground (arith, map, map') in
          rw (map, cbor_entries)
            (Member-retain (has_kept_key codec names) e entries (rw same at m)
              ((has_kept_key_iff names e).1 (t, text, listed))),
    )
  ]

  -- The bodies that `with_body` can return, by the status, the names and the mime type.
  pub data IsMasked (body : List ℕ) (names : List String) (rd : ResponseData)
      : List ℕ → Type 0 where
    whole :
        {bytes : List ℕ}
        → (300 ≤ rd.status) ⊎ (is_empty names ≡ true)
        → bytes ≡ rd.body ++ body
        → IsMasked body names rd bytes
    json :
        {bytes : List ℕ} (obj : Json)
        → rd.status < 300
        → is_empty names ≡ false
        → contains_text "application/json" rd.mime ≡ true
        → json_from_slice body ≡ ok obj
        → (pairs : List (String × Json)) → AreMembers names obj pairs
        → json_to_vec pairs ≡ ok bytes
        → IsMasked body names rd bytes
    cbor :
        {bytes : List ℕ} (obj : Value)
        → rd.status < 300
        → is_empty names ≡ false
        → contains_text "application/json" rd.mime ≡ false
        → contains_text "application/cbor" rd.mime ≡ true
        → cbor_from_reader body ≡ ok obj
        → (kept : List (Value × Value)) → AreEntries names obj kept
        → cbor_of_map kept ≡ ok bytes
        → IsMasked body names rd bytes
    other :
        {bytes : List ℕ}
        → contains_text "application/json" rd.mime ≡ false
        → contains_text "application/cbor" rd.mime ≡ false
        → bytes ≡ rd.body ++ body
        → IsMasked body names rd bytes

  module _ (body : List ℕ) (filter : String) (rd rd' : ResponseData) where
    IsMasked-whole :
        (leb 300 rd.status || is_empty (split_filtering filter)) ≡ true
        → with_body codec body filter rd ≡ ok rd'
        → IsMasked body (split_filtering filter) rd rd'.body
    unfolding with_body
    IsMasked-whole test h = whole (ground arith) (ground arith)

    IsMasked-json :
        (leb 300 rd.status || is_empty (split_filtering filter)) ≡ false
        → contains_text "application/json" rd.mime ≡ true
        → with_body codec body filter rd ≡ ok rd'
        → IsMasked body (split_filtering filter) rd rd'.body
    unfolding with_body
    IsMasked-json test mime h = elim (Result-cases (json_from_slice body)) [
      | inr (e, failed) ↦ absurd (ground arith)
      | inl (obj, parsed) ↦
          elim (Result-cases (json_to_vec (json_pairs codec (split_filtering filter) obj))) [
            | inr (e, failed) ↦ absurd (ground arith)
            | inl (bytes, written) ↦
                let e : rd'.body ≡ bytes = ground arith in
                rw e (
                  json obj (ground arith) (ground arith) mime parsed _
                    (json_pairs_iff (split_filtering filter) obj) written)
          ]
    ]

    IsMasked-cbor :
        (leb 300 rd.status || is_empty (split_filtering filter)) ≡ false
        → contains_text "application/json" rd.mime ≡ false
        → contains_text "application/cbor" rd.mime ≡ true
        → with_body codec body filter rd ≡ ok rd'
        → IsMasked body (split_filtering filter) rd rd'.body
    unfolding with_body
    IsMasked-cbor test no_json mime h = elim (Result-cases (cbor_from_reader body)) [
      | inr (e, failed) ↦ absurd (ground arith)
      | inl (obj, parsed) ↦
          elim (Result-cases (cbor_of_map (cbor_entries codec (split_filtering filter) obj))) [
            | inr (e, failed) ↦ absurd (ground arith)
            | inl (bytes, written) ↦
                let e : rd'.body ≡ bytes = ground arith in
                rw e (
                  cbor obj (ground arith) (ground arith) no_json mime parsed _
                    (cbor_entries-AreEntries (split_filtering filter) obj) written)
          ]
    ]

    IsMasked-other :
        (leb 300 rd.status || is_empty (split_filtering filter)) ≡ false
        → contains_text "application/json" rd.mime ≡ false
        → contains_text "application/cbor" rd.mime ≡ false
        → with_body codec body filter rd ≡ ok rd'
        → IsMasked body (split_filtering filter) rd rd'.body
    unfolding with_body
    IsMasked-other test no_json no_cbor h = other no_json no_cbor (ground arith)

    with_body-frame :
        with_body codec body filter rd ≡ ok rd'
        → (rd'.status ≡ rd.status) × (rd'.headers ≡ rd.headers) × (rd'.mime ≡ rd.mime)
    unfolding with_body
    with_body-frame h = ground arith

    -- Masking. When `with_body` succeeds on a status below 300 and a filter with a name, the new body
    -- of a JSON response codes exactly the members of the parsed body whose key the filter lists,
    -- each with its value, and that of a CBOR response codes exactly the entries of the parsed map
    -- whose key is a text that the filter lists, and none of what is no map; which of the two it is,
    -- or neither, the mime type says. Else the upstream's body is appended whole. The status, the
    -- headers and the mime type stay.
    pub with_body-IsMasked :
        with_body codec body filter rd ≡ ok rd'
        → IsMasked body (split_filtering filter) rd rd'.body
          × (rd'.status ≡ rd.status)
          × (rd'.headers ≡ rd.headers)
          × (rd'.mime ≡ rd.mime)
    with_body-IsMasked h =
        let (status, headers, mime) = with_body-frame h in (masked, status, headers, mime)
      where
        masked : IsMasked body (split_filtering filter) rd rd'.body
        masked = elim (Bool-cases (leb 300 rd.status || is_empty (split_filtering filter))) [
          | inl test ↦ IsMasked-whole test h
          | inr test ↦ elim (Bool-cases (contains_text "application/json" rd.mime)) [
            | inl is_json ↦ IsMasked-json test is_json h
            | inr no_json ↦ elim (Bool-cases (contains_text "application/cbor" rd.mime)) [
              | inl is_cbor ↦ IsMasked-cbor test no_json is_cbor h
              | inr no_cbor ↦ IsMasked-other test no_json no_cbor h
            ]
          ]
        ]
