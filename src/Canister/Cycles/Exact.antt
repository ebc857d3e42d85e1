-- ===== src/Canister/Cycles/Exact.antt =====
-- The costs without the machine arithmetic.
use native.Mathlib.Nat.{mul-le-mul}
use idempotent_proxy.Prelude.{
  ℕ, ◌+◌, ◌*◌, ◌%◌, ◌^◌, ◌≤◌, ◌<◌, ◌≡◌, refl, arith, if◌then◌else◌, ◌==◌, u32_mod, u64_mod,
  u128_mod, Bool-cases, inl, inr,
}
use idempotent_proxy.Canister.Cycles.{
  Calculator, http_outcall_request_cost, http_outcall_response_cost,
}

-- A subnet of at most 2^20 nodes.
abbrev pub IsSmall : Calculator → Type 0
IsSmall c = (c.subnet_size ≤ 2 ^ 20) × (c.service_fee < u64_mod)

-- A sum and a product that a `u128` holds.
fee_and_product :
    (fee m k : ℕ)
    → fee < u64_mod
    → m ≤ 2 ^ 56
    → k ≤ 2 ^ 64
    → (fee + (m * k) % u128_mod) % u128_mod ≡ fee + m * k
fee_and_product fee m k hf hm hk =
    let bound : m * k ≤ 2 ^ 56 * 2 ^ 64 = mul-le-mul hm hk in omega arith

node_product : (n d : ℕ) → n ≤ 2 ^ 20 → d < u32_mod → ((n * d) % u64_mod ≡ n * d) × (n * d ≤ 2 ^ 64)
node_product n d hn hd =
    let below : d ≤ 2 ^ 32 = omega arith in
    let bound : n * d ≤ 2 ^ 20 * 2 ^ 32 = mul-le-mul hn below in (omega arith, omega arith)

module _ (c : Calculator) (bytes duplicates : ℕ) where
  -- The request cost does not wrap: for a subnet of at most 2^20 nodes and counts that fit a
  -- `usize`, it is the service fee and, for each copy and node, the base cost, the cost by node,
  -- the cost by byte (with the 150 bytes of overhead) and the canister's overhead; with no subnet
  -- it is zero.
  pub http_outcall_request_cost_exact :
      IsSmall c
      → bytes < u32_mod
      → duplicates < u32_mod
      → http_outcall_request_cost c bytes duplicates ≡ (
          if c.subnet_size == 0
          then 0
          else c.service_fee
            + (4_000_000 + 60_000 * c.subnet_size + 400 * (150 + bytes))
              * (c.subnet_size * duplicates))
  unfolding http_outcall_request_cost
  http_outcall_request_cost_exact small hb hd =
      let n = c.subnet_size in
      let m : ℕ = 4_000_000 + 60_000 * n + 400 * (150 + bytes) in
      let per_node : ((((3_000_000 + (60_000 * n) % u64_mod) % u64_mod
                  + (400 * ((150 + bytes) % u64_mod)) % u64_mod)
                % u64_mod
              + 1_000_000)
            % u64_mod)
          ≡ m =
        omega arith in
      let (product, few) = node_product n duplicates small.0 hd in
      rw
        (
          per_node,
          product,
          fee_and_product c.service_fee m (n * duplicates) small.1 (omega arith) few,
        )
        refl

  -- The response cost does not wrap: for a subnet of at most 2^20 nodes and counts that fit a
  -- `usize`, it is the cost by byte for each copy and node.
  pub http_outcall_response_cost_exact :
      IsSmall c
      → bytes < u32_mod
      → duplicates < u32_mod
      → http_outcall_response_cost c bytes duplicates ≡ 800 * bytes * (c.subnet_size * duplicates)
  unfolding http_outcall_response_cost
  http_outcall_response_cost_exact small hb hd = elim (Bool-cases (c.subnet_size == 0)) [
    | inl unset ↦
        let e : c.subnet_size ≡ 0 = ground arith in
        rw (unset, http_outcall_response_cost) (rw e (omega arith))
    | inr set ↦
        let (product, few) = node_product c.subnet_size duplicates small.0 hd in
        let m : ℕ = 800 * bytes in
        let per_node : m % u64_mod ≡ m = omega arith in
        let bound : m * (c.subnet_size * duplicates) ≤ 2 ^ 56 * 2 ^ 64 =
          mul-le-mul {n₂ = 2 ^ 56} (omega arith) few in
        rw (set, http_outcall_response_cost) (rw (per_node, product) (omega arith))
  ]
