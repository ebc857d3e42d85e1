-- ===== src/Canister/Types.antt =====
-- The data of the canister: its own records, and those of `ic_cdk` that it reads and writes.
--
-- A principal stands as its text, which identifies it: the code only compares principals.
use idempotent_proxy.Prelude.{ℕ, String, Option, List}

abbrev pub Principal : Type 0
Principal = String

pub record HttpHeader : Type 0 where
  pub name : String
  pub value : String

pub record HttpRequest : Type 0 where
  pub url : String
  pub max_response_bytes : Option ℕ
  pub headers : List HttpHeader
  pub body : Option (List ℕ)
  pub transform : Option String

pub record HttpResponse : Type 0 where
  pub status : ℕ
  pub headers : List HttpHeader
  pub body : List ℕ

-- `Agent` of agent.rs.
pub record Agent : Type 0 where
  pub name : String
  pub endpoint : String
  pub max_cycles : ℕ
  pub proxy_token : Option String

-- `CoseClient` of cose.rs.
pub record CoseClient : Type 0 where
  pub id : Principal
  pub namespace : String

-- `State` of store.rs.
pub record State : Type 0 where
  pub ecdsa_key_name : String
  pub proxy_token_public_key : String
  pub proxy_token_refresh_interval : ℕ
  pub agents : List Agent
  pub managers : List Principal
  pub allowed_callers : List Principal
  pub callers : List (Principal × (ℕ × ℕ))
  pub subnet_size : ℕ
  pub service_fee : ℕ
  pub incoming_cycles : ℕ
  pub uncollectible_cycles : ℕ
  pub cose : Option CoseClient
