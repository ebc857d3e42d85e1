-- ===== src/Response/Names.antt =====
-- The names that a filter lists.
use Prim.Native.String.{String}
use idempotent_proxy.Prelude.{
  ◌≡◌, false, All, trim, split, text_is_empty, Bool-cases, inl, inr, Lacks, trim_idem, trim-Lacks,
  split-Lacks, List, [], ◌∷◌,
}
use idempotent_proxy.Response.{split_filtering, keep_names}

-- A name is trimmed, not empty, and has no comma.
pub record IsName (w : String) : Type 0 where
  pub nonempty : text_is_empty w ≡ false
  pub trimmed : trim w ≡ w
  pub plain : Lacks b',' w

keep_names-IsName : (l : List String) → All (Lacks b',') l → All IsName (keep_names l)
unfolding keep_names
keep_names-IsName [] a = tt
keep_names-IsName (s ∷ l) a = elim (Bool-cases (text_is_empty (trim s))) [
  | inl blank ↦ rw (blank, keep_names) (keep_names-IsName l a.1)
  | inr name ↦
      rw (name, keep_names)
        (
          record { nonempty = name; trimmed = trim_idem s; plain = trim-Lacks b',' s a.0 },
          keep_names-IsName l a.1,
        )
]

-- `split_filtering` returns names that are trimmed, not empty and free of commas, whatever the
-- filter is.
pub split_filtering-IsName : (filtering : String) → All IsName (split_filtering filtering)
unfolding split_filtering
split_filtering-IsName filtering =
    keep_names-IsName (split b',' filtering) (split-Lacks b',' filtering)
