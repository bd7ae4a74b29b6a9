-- ===== src/Vault/Payment/Handlers/Tests.antt =====
-- A client with the vault 1 only, which pays a redeem and a replace request (vault/src/redeem.rs,
-- vault/src/replace.rs).
use interbtc_clients_cli.Prelude.{
  ℕ, ◌≡◌, refl, true, Option, none, some, [], ◌∷◌, Result, ok, err, ◌==◌, if◌then◌else◌,
}
use interbtc_clients_cli.Runtime as Runtime
use interbtc_clients_cli.Runtime.{other}
use interbtc_clients_cli.Vault.Deadline.{
  InterBtcRedeemRequest, InterBtcReplaceRequest, calculate_deadline, from_redeem_request,
  from_replace_request, duration_to_parachain_blocks, parachain_blocks_to_bitcoin_blocks_rounded_up,
}
use interbtc_clients_cli.Vault.Payment.{TransactionMetadata, confirmed, sat_per_vbyte}
use interbtc_clients_cli.Vault.Payment.Transfer.{Chains, pay_and_execute}
use interbtc_clients_cli.Vault.Payment.Handlers.{
  RequestRedeemEvent, AcceptReplaceEvent, Outcome, not_directed, payments, on_request_redeem,
  on_accept_replace,
}
use interbtc_clients_cli.Vault.Payment.Handlers.Directed.{
  redeem_terms, replace_terms, PaidAtMostOnce, on_request_redeem-PaidAtMostOnce,
  on_accept_replace-PaidAtMostOnce,
}

abbrev metadata_of : ℕ → TransactionMetadata
metadata_of txid = record { txid = txid; block_hash = 11; proof = 12; raw_tx = 13 }

abbrev chains : Chains
chains = record {
  get_current_active_block_number = ok 12;
  get_block_count = ok 49;
  get_bitcoin_fees = ok 200;
  create_and_send_transaction = λ payment. ok 90;
  moments = confirmed (λ txid n. ok (metadata_of txid)) (λ block n. ok tt) ∷ [];
  execute = λ type hash proof raw_tx n. ok tt;
  backoff = [];
}

abbrev to_address : ℕ → Option ℕ
to_address a = some a

abbrev get_vault : ℕ → Option Chains
get_vault vault_id = if vault_id == 1 then some chains else none

abbrev get_redeem_request : ℕ → Result Runtime.Error InterBtcRedeemRequest
get_redeem_request redeem_id =
    if redeem_id == 7
    then ok (record {
      opentime = 10;
      btc_height = 40;
      period = 100;
      amount_btc = 30_000;
      btc_address = 60;
      vault = 1;
      transfer_fee_btc = 5;
    })
    else err other

abbrev get_replace_request : ℕ → Result Runtime.Error InterBtcReplaceRequest
get_replace_request replace_id =
    if replace_id == 8
    then ok (record {
      accept_time = 10;
      btc_height = 40;
      period = 100;
      amount = 20_000;
      btc_address = 61;
      old_vault = 1;
    })
    else err other

abbrev redeem_event : RequestRedeemEvent
redeem_event = record { redeem_id = 7; vault_id = 1 }

abbrev other_event : RequestRedeemEvent
other_event = record { redeem_id = 7; vault_id = 2 }

abbrev replace_event : AcceptReplaceEvent
replace_event = record { replace_id = 8; old_vault_id = 1 }

abbrev redeem_outcome : Outcome
redeem_outcome =
    on_request_redeem 100 to_address 6 get_vault true get_redeem_request 120_000 redeem_event

abbrev replace_outcome : Outcome
replace_outcome =
    on_accept_replace 100 to_address 6 get_vault true get_replace_request 120_000 replace_event

redeem_paid :
    payments redeem_outcome
    ≡ record { address = 60; sat = 30_000; fee_rate = 2; op_return = 7 } ∷ []
unfolding on_request_redeem pay_and_execute sat_per_vbyte from_redeem_request calculate_deadline
    duration_to_parachain_blocks parachain_blocks_to_bitcoin_blocks_rounded_up
redeem_paid = refl

replace_paid :
    payments replace_outcome
    ≡ record { address = 61; sat = 20_000; fee_rate = 2; op_return = 8 } ∷ []
unfolding on_accept_replace pay_and_execute sat_per_vbyte from_replace_request calculate_deadline
    duration_to_parachain_blocks parachain_blocks_to_bitcoin_blocks_rounded_up
replace_paid = refl

other_ignored :
    on_request_redeem 100 to_address 6 get_vault true get_redeem_request 120_000 other_event
    ≡ not_directed
unfolding on_request_redeem
other_ignored = refl

on_request_redeem-PaidAtMostOnce_example :
    PaidAtMostOnce 100 to_address 6 get_vault true 1
      (get_redeem_request 7)
      (redeem_terms 7 120_000)
      (payments redeem_outcome)
on_request_redeem-PaidAtMostOnce_example =
    on_request_redeem-PaidAtMostOnce 100 to_address 6 get_vault true get_redeem_request 120_000
      redeem_event

on_accept_replace-PaidAtMostOnce_example :
    PaidAtMostOnce 100 to_address 6 get_vault true 1
      (get_replace_request 8)
      (replace_terms 8 120_000)
      (payments replace_outcome)
on_accept_replace-PaidAtMostOnce_example =
    on_accept_replace-PaidAtMostOnce 100 to_address 6 get_vault true get_replace_request 120_000
      replace_event
