-- ===== src/Examples.antt =====
-- The examples: two canisters that ask an Ethereum node through the proxy, examples/eth-canister by
-- HTTPS outcalls of its own, and examples/eth-canister-lite through the canister of the proxy.
pub mod JsonRpc
pub mod EthCanister
pub mod Lite
pub mod Answers
pub mod Signing
pub mod State
pub mod Stable
pub mod Service
pub mod Tokens
pub mod Posted
pub mod Histories
mod Tests
