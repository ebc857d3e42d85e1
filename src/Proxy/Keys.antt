-- ===== src/Proxy/Keys.antt =====
-- The key under which a response is cached.
use Prim.Native.Char.{Char, code}
use Prim.Native.String
use Prim.Native.String.{String}
use text.Mathlib.TextLemmas.{nil-append, cons-append, cons-eq-cons, append-nil, append_assoc}
use idempotent_proxy.Prelude.{◌≡◌, refl, sym, ap, ◌∙◌, Lacks, [], ◌∷◌, join}
use idempotent_proxy.Proxy.Access.{Packages, full_key}

abbrev colon : Char
colon = ":"

prepend_colon : (s : String) → String.◌++◌ ":" s ≡ String.◌∷◌ colon s
prepend_colon s = cons-append colon String.[] s ∙ ap (String.◌∷◌ colon) (nil-append s)

-- A text is cut at its first colon in one way.
cut_unique :
    (a b s t : String)
    → Lacks b':' a
    → Lacks b':' b
    → String.◌++◌ a (String.◌∷◌ colon s) ≡ String.◌++◌ b (String.◌∷◌ colon t)
    → (a ≡ b) × (s ≡ t)
cut_unique String.[] String.[] s t la lb h =
    (refl, (cons-eq-cons.0 (sym (nil-append _) ∙ h ∙ nil-append _)).1)
cut_unique String.[] (String.◌∷◌ d b) s t la lb h =
    let e = cons-eq-cons.0 (sym (nil-append _) ∙ h ∙ cons-append d b _) in
    absurd (lb.0 (ap code (sym e.0)))
cut_unique (String.◌∷◌ c a) String.[] s t la lb h =
    let e = cons-eq-cons.0 (sym (cons-append c a _) ∙ h ∙ nil-append _) in
    absurd (la.0 (ap code e.0))
cut_unique (String.◌∷◌ c a) (String.◌∷◌ d b) s t la lb h =
    let e = cons-eq-cons.0 (sym (cons-append c a _) ∙ h ∙ cons-append d b _) in
    let (same, rest) = cut_unique a b s t la.1 lb.1 e.1 in
    ((λ i. String.◌∷◌ (e.0 i) (same i)), rest)

full_key_cut :
    (p : Packages) (agent method key : String)
    → full_key p agent method key
      ≡ String.◌++◌ agent (String.◌∷◌ colon (String.◌++◌ method (String.◌∷◌ colon key)))
unfolding full_key
full_key_cut p agent method key = ap (String.◌++◌ agent) (
    prepend_colon _
    ∙ ap (String.◌∷◌ colon)
        (ap (String.◌++◌ method) (prepend_colon _ ∙ ap (String.◌∷◌ colon) (append-nil key))))

-- No two clients share a cache entry by accident: where no agent's name and no method holds a
-- colon, requests have the same cache key only if they have the same agent, the same method and
-- the same idempotency key.
pub full_key_injective :
    (p : Packages) (agent agent' method method' key key' : String)
    → Lacks b':' agent
    → Lacks b':' agent'
    → Lacks b':' method
    → Lacks b':' method'
    → full_key p agent method key ≡ full_key p agent' method' key'
    → (agent ≡ agent') × (method ≡ method') × (key ≡ key')
full_key_injective p agent agent' method method' key key' la la' lm lm' h =
    let e = sym (full_key_cut p agent method key) ∙ h ∙ full_key_cut p agent' method' key' in
    let (same_agent, rest) = cut_unique agent agent' _ _ la la' e in
    let (same_method, same_key) = cut_unique method method' _ _ lm lm' rest in
    (same_agent, same_method, same_key)

-- An agent's name may hold a colon, since it is any text of a token. Then two agents can share a
-- cache entry: whatever the texts, the agent `a` with the key `m':k` and the method `m` has the
-- cache key of the agent `a:m` with the method `m'` and the key `k`.
pub full_key_collision :
    (p : Packages) (agent method method' key : String)
    → full_key p agent method (join (method' ∷ ":" ∷ key ∷ []))
      ≡ full_key p (join (agent ∷ ":" ∷ method ∷ [])) method' key
unfolding full_key
full_key_collision p agent method method' key = simp (append_assoc, append-nil)
