-- ===== src/Proxy/Altering.antt =====
-- The headers that are sent on, and the key.
use Prim.Native.String.{String}
use idempotent_proxy.Prelude.{◌≡◌, Bool, ◌||◌, List, [], ◌∷◌, str_eq, lookup, none, some, String}
use idempotent_proxy.Proxy.Access.{Packages}

-- The headers that never reach the upstream.
abbrev pub is_stripped : String → Bool
is_stripped name =
    str_eq name "x-forwarded-proto"
    || (str_eq name "x-forwarded-host"
        || (str_eq name "x-forwarded-for"
            || (str_eq name "proxy-authorization"
                || (str_eq name "forwarded" || str_eq name "host"))))

module _ (p : Packages) (vars : List (String × p.header_map.Value)) where
  -- What the upstream gets for a value: the configured one, if the value is a text that is the name
  -- of one, and else the value itself.
  pub data IsAltered (v : p.header_map.Value) : p.header_map.Value → Type 0 where
    replaced :
        {v' : p.header_map.Value} (name : String)
        → p.header_map.to_str v ≡ some name
        → lookup name vars ≡ some v'
        → IsAltered v v'
    kept :
        {v' : p.header_map.Value}
        → ((name : String) → p.header_map.to_str v ≡ some name → lookup name vars ≡ none)
        → v' ≡ v
        → IsAltered v v'

  -- The same names in the same order, each with its altered value.
  abbrev pub AreAltered :
      List (String × p.header_map.Value) → List (String × p.header_map.Value) → Type 0
  AreAltered [] [] = Unit
  AreAltered ((k, v) ∷ l) ((k', v') ∷ l') = (k' ≡ k) × IsAltered v v' × AreAltered l l'
  AreAltered _ _ = ⊥
