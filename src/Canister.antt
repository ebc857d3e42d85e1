-- ===== src/Canister.antt =====
-- idempotent-proxy-canister: the on-chain client of one or more proxies.
pub mod Types
pub mod Cycles
pub mod Store
pub mod Agent
pub mod Signer
pub mod Tasks
pub mod Admin
pub mod Init
pub mod Upgrade
pub mod Api
pub mod Users
mod Tests
