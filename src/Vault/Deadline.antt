-- ===== src/Vault/Deadline.antt =====
-- Deadlines of redeem and replace requests (vault/src/execution.rs): the conversion of parachain
-- blocks to Bitcoin blocks, the two deadlines of a request, and the requests built with them.
pub mod Blocks
pub mod Bounds
mod Tests
use interbtc_clients_cli.Prelude.{
  ℕ, ◌+◌, ◌-◌, ◌*◌, ◌/◌, Bool, ◌&&◌, Option, none, some, Result, ok, err, ok_or, ◌>>=◌, leb,
}
use interbtc_clients_cli.Prelude.Words.{
  u32_max, u64_max, u128_max, checked_add, checked_sub, checked_mul, checked_div, try_into,
}

-- The errors of vault/src/error.rs that this code raises or passes on: `conversion` is the failed
-- `try_into`, `runtime_error` what a call of the parachain returned.
pub data Error : Type 0 where
  arithmetic_overflow arithmetic_underflow conversion deadline_expired runtime_error : Error

-- Milliseconds between two parachain blocks (runtime/src/lib.rs).
abbrev pub millisecs_per_block : ℕ
millisecs_per_block = 12_000

-- Milliseconds between two Bitcoin blocks on average (bitcoin/src/lib.rs).
abbrev pub bitcoin_block_interval : ℕ
bitcoin_block_interval = 600_000

-- The product is a u64, the division is done in u128, and the result is a u32.
unfoldable pub parachain_blocks_to_bitcoin_blocks_rounded_up : ℕ → Result Error ℕ
parachain_blocks_to_bitcoin_blocks_rounded_up parachain_blocks = do
  millis ← ok_or (checked_mul u64_max parachain_blocks millisecs_per_block) arithmetic_overflow
  padded ← ok_or (checked_add u128_max millis bitcoin_block_interval) arithmetic_overflow
  numerator ← ok_or (checked_sub padded 1) arithmetic_underflow
  blocks ← ok_or (checked_div numerator bitcoin_block_interval) arithmetic_underflow
  ok_or (try_into u32_max blocks) conversion

-- A `Duration` is its number of milliseconds.
unfoldable pub duration_to_parachain_blocks : ℕ → Result Error ℕ
duration_to_parachain_blocks duration =
    ok_or (try_into u32_max (duration / millisecs_per_block)) conversion

pub record Deadline : Type 0 where
  pub parachain : ℕ
  pub bitcoin : ℕ

unfoldable pub calculate_deadline : ℕ → ℕ → ℕ → ℕ → Result Error Deadline
calculate_deadline opentime btc_start_height period payment_margin = do
  margin ← duration_to_parachain_blocks payment_margin
  parachain_end ← ok_or (checked_add u32_max opentime period) arithmetic_overflow
  parachain_deadline ← ok_or (checked_sub parachain_end margin) arithmetic_underflow
  period_btc ← parachain_blocks_to_bitcoin_blocks_rounded_up period
  bitcoin_end ← ok_or (checked_add u32_max btc_start_height period_btc) arithmetic_overflow
  margin_btc ← parachain_blocks_to_bitcoin_blocks_rounded_up margin
  bitcoin_deadline ← ok_or (checked_sub bitcoin_end margin_btc) arithmetic_underflow
  ok (record { parachain = parachain_deadline; bitcoin = bitcoin_deadline })

pub data RequestType : Type 0 where
  redeem replace : RequestType

-- A hash, an address and a vault id are only compared, so each is a number.
pub record Request : Type 0 where
  pub hash : ℕ
  pub btc_height : Option ℕ
  pub deadline : Option Deadline
  pub amount : ℕ
  pub btc_address : ℕ
  pub request_type : RequestType
  pub vault_id : ℕ
  pub fee_budget : Option ℕ

-- The fields that the code reads of the parachain's redeem and replace requests.
pub record InterBtcRedeemRequest : Type 0 where
  pub opentime : ℕ
  pub btc_height : ℕ
  pub period : ℕ
  pub amount_btc : ℕ
  pub btc_address : ℕ
  pub vault : ℕ
  pub transfer_fee_btc : ℕ

pub record InterBtcReplaceRequest : Type 0 where
  pub accept_time : ℕ
  pub btc_height : ℕ
  pub period : ℕ
  pub amount : ℕ
  pub btc_address : ℕ
  pub old_vault : ℕ

unfoldable pub from_redeem_request : ℕ → InterBtcRedeemRequest → ℕ → Result Error Request
from_redeem_request hash request payment_margin = do
  deadline ← calculate_deadline request.opentime request.btc_height request.period payment_margin
  ok (record {
    hash = hash;
    btc_height = some request.btc_height;
    deadline = some deadline;
    amount = request.amount_btc;
    btc_address = request.btc_address;
    request_type = redeem;
    vault_id = request.vault;
    fee_budget = some request.transfer_fee_btc;
  })

unfoldable pub from_replace_request : ℕ → InterBtcReplaceRequest → ℕ → Result Error Request
from_replace_request hash request payment_margin = do
  deadline ← calculate_deadline request.accept_time request.btc_height request.period payment_margin
  ok (record {
    hash = hash;
    btc_height = some request.btc_height;
    deadline = some deadline;
    amount = request.amount;
    btc_address = request.btc_address;
    request_type = replace;
    vault_id = request.old_vault;
    fee_budget = none;
  })
