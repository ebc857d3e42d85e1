-- ===== src/Canister/Cycles.antt =====
-- idempotent-proxy-canister/src/cycles.rs: what a call costs.
--
-- The canister runs on wasm32: a `usize` has 32 bits. The arithmetic of a release build wraps.
pub mod Exact
use Prim.Native.String
use idempotent_proxy.Prelude.{
  ℕ, ◌+◌, ◌*◌, ◌%◌, String, Bool, Option, none, some, List, [], ◌∷◌, length, if◌then◌else◌, ◌==◌,
  u32_mod, u64_mod, u128_mod,
}
use idempotent_proxy.Canister.Types.{HttpHeader, HttpRequest, HttpResponse}

pub record Calculator : Type 0 where
  pub subnet_size : ℕ
  pub service_fee : ℕ

-- `+` and `*` of `usize`, `u64` and `u128`.
abbrev pub usize_add : ℕ → ℕ → ℕ
usize_add a b = (a + b) % u32_mod

abbrev pub u64_add : ℕ → ℕ → ℕ
u64_add a b = (a + b) % u64_mod

abbrev pub u64_mul : ℕ → ℕ → ℕ
u64_mul a b = (a * b) % u64_mod

abbrev pub u128_add : ℕ → ℕ → ℕ
u128_add a b = (a + b) % u128_mod

abbrev pub u128_mul : ℕ → ℕ → ℕ
u128_mul a b = (a * b) % u128_mod

abbrev pub ingress_message_received_cost : ℕ
ingress_message_received_cost = 1_200_000

abbrev pub ingress_message_byte_received_cost : ℕ
ingress_message_byte_received_cost = 2_000

abbrev pub http_outcall_request_base_cost : ℕ
http_outcall_request_base_cost = 3_000_000

abbrev pub http_outcall_request_per_node_cost : ℕ
http_outcall_request_per_node_cost = 60_000

abbrev pub http_outcall_request_cost_per_byte : ℕ
http_outcall_request_cost_per_byte = 400

abbrev pub http_outcall_response_cost_per_byte : ℕ
http_outcall_response_cost_per_byte = 800

abbrev pub http_outcall_request_overhead_bytes : ℕ
http_outcall_request_overhead_bytes = 150

abbrev pub canister_overhead : ℕ
canister_overhead = 1_000_000

-- The loop over the headers, from a first total.
unfoldable pub add_headers : ℕ → List HttpHeader → ℕ
add_headers total [] = total
add_headers total (h ∷ headers) =
    add_headers (usize_add total (usize_add (usize_add (String.len h.name) (String.len h.value)) 3))
      headers

unfoldable pub count_request_bytes : Calculator → HttpRequest → ℕ
count_request_bytes c req =
    if c.subnet_size == 0
    then 0
    else add_headers
        (usize_add (String.len req.url) (elim req.body [ none ↦ 0 | some v ↦ length v ]))
        req.headers

unfoldable pub count_response_bytes : Calculator → HttpResponse → ℕ
count_response_bytes c res =
    if c.subnet_size == 0 then 0 else add_headers (usize_add 4 (length res.body)) res.headers

unfoldable pub ingress_cost : Calculator → ℕ → ℕ
ingress_cost c ingress_bytes =
    if c.subnet_size == 0
    then 0
    else u128_mul
        (u64_add ingress_message_received_cost
          (u64_mul ingress_message_byte_received_cost ingress_bytes))
        c.subnet_size

unfoldable pub http_outcall_request_cost : Calculator → ℕ → ℕ → ℕ
http_outcall_request_cost c request_bytes duplicates =
    if c.subnet_size == 0
    then 0
    else (let cost_per_node : ℕ =
          u64_add
            (u64_add
              (u64_add http_outcall_request_base_cost
                (u64_mul http_outcall_request_per_node_cost c.subnet_size))
              (u64_mul http_outcall_request_cost_per_byte
                (u64_add http_outcall_request_overhead_bytes request_bytes)))
            canister_overhead in
        u128_add c.service_fee (u128_mul cost_per_node (u64_mul c.subnet_size duplicates)))

unfoldable pub http_outcall_response_cost : Calculator → ℕ → ℕ → ℕ
http_outcall_response_cost c response_bytes duplicates =
    if c.subnet_size == 0
    then 0
    else u128_mul (u64_mul http_outcall_response_cost_per_byte response_bytes)
        (u64_mul c.subnet_size duplicates)
