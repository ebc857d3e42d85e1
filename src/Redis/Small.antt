-- ===== src/Redis/Small.antt =====
-- A small server that does as Redis documents: the keys with their expiries and values, in a list.
use idempotent_proxy.Prelude.{
  ℕ, ◌+◌, ◌<◌, ◌≡◌, refl, String, Bool, true, false, none, some, List, arith, str_eq, if◌then◌else◌,
  lookup, insert, remove, lookup-insert, lookup-remove, Result, ok, ◌&&◌,
}
use mathlib.Core.Option
use idempotent_proxy.Cache.Contract.{live, is_live}
use idempotent_proxy.Redis.{Server, SetCondition}
use idempotent_proxy.Redis.Contract.{writes, ServerLaws}

abbrev pub Store : Type 0
Store = List (String × (ℕ × List ℕ))

abbrev small_set : ℕ → String → List ℕ → SetCondition → ℕ → Store → Store × Result Bool String
small_set now k v cond px s =
    if writes cond (is_live now (lookup k s))
    then (insert k (now + px, v) s, ok true)
    else (s, ok false)

abbrev pub small_server : Server Store
small_server = record {
  acquire = λ now s. ok tt;
  set_with_options = small_set;
  get = λ now k s. (s, ok (Option.map (λ e. e.1) (live now (lookup k s))));
  del = λ now k s. (remove k s, ok (if is_live now (lookup k s) then 1 else 0));
}

small_set-result :
    (now : ℕ) (k : String) (v : List ℕ) (cond : SetCondition) (px : ℕ) (s : Store)
    → 0 < px
    → (small_set now k v cond px s).1 ≡ ok (writes cond (is_live now (lookup k s)))
small_set-result now k v cond px s h = ground arith

lookup-small_set :
    (now : ℕ) (k j : String) (v : List ℕ) (cond : SetCondition) (px : ℕ) (s : Store)
    → 0 < px
    → live now (lookup j (small_set now k v cond px s).0) ≡ (
        if str_eq k j && writes cond (is_live now (lookup k s))
        then some (now + px, v)
        else live now (lookup j s))
lookup-small_set now k j v cond px s h = ground (arith, lookup-insert k j (now + px, v) s)

lookup-small_del :
    (now : ℕ) (k j : String) (s : Store)
    → live now (lookup j (remove k s)) ≡ (if str_eq k j then none else live now (lookup j s))
lookup-small_del now k j s = ground (arith, lookup-remove k j s)

pub small_server-ServerLaws : ServerLaws small_server lookup
small_server-ServerLaws = record {
  acquires = λ now s. refl;
  set-result = small_set-result;
  entry-set = lookup-small_set;
  get-result = λ now k s. refl;
  entry-get = λ now k j s. refl;
  del-result = λ now k s. refl;
  entry-del = lookup-small_del;
}
