-- ===== src/Vault/Relay.antt =====
-- The relayer (vault/src/relay/mod.rs), which submits Bitcoin headers to the parachain: the two
-- chains that it reads and writes, the search for the height to go on from, and `submit_next`.
-- `backing` is the Bitcoin node, `issuing` the relay on the parachain. Hashes and raw headers are
-- only compared and passed on, so each is a number.
pub mod Height
pub mod Fork
pub mod Start
pub mod Batch
pub mod Submit
pub mod Chains
mod Tests
use interbtc_clients_cli.Prelude.{ℕ, Bool, Option, List, Result}

-- The errors that this code raises itself or passes on from the two chains; the panic of `unwrap`
-- on a missing header; and the end of the fuel of a loop, which the theorems exclude.
pub data Failure : Type 0 where
  not_initialized call_failed panicked out_of_fuel : Failure

-- What the Bitcoin node answers.
pub record Backing : Type 0 where
  pub get_block_count : Result Failure ℕ
  pub get_block_header : ℕ → Result Failure (Option ℕ)
  pub get_block_hash : ℕ → Result Failure ℕ

-- What the relay on the parachain answers in a given state, and its calls that change the state.
pub record Issuing (S : Type 0) : Type 0 where
  pub is_initialized : S → Result Failure Bool
  pub initialize : ℕ → ℕ → S → Result Failure (Unit {0}) × S
  pub submit_block_header : ℕ → S → Result Failure (Unit {0}) × S
  pub submit_block_header_batch : List ℕ → S → Result Failure (Unit {0}) × S
  pub get_best_height : S → Result Failure ℕ
  pub get_block_hash : ℕ → S → Result Failure ℕ
  pub is_block_stored : ℕ → S → Result Failure Bool

pub record Config : Type 0 where
  pub start_height : Option ℕ
  pub max_batch_size : ℕ
  pub btc_confirmations : ℕ
