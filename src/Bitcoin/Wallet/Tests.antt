-- ===== src/Bitcoin/Wallet/Tests.antt =====
-- A transaction that is funded with one of two coins (bitcoin/src/light/wallet.rs).
use interbtc_clients_cli.Prelude.{ℕ, ◌+◌, ◌*◌, List, [], ◌∷◌, Result, ok, length}
use interbtc_clients_cli.Bitcoin.{TxOut}
use interbtc_clients_cli.Bitcoin.Wallet.Fund.{Error, Utxo, PartiallySignedTransaction, Wallet}

-- One address with a coin of 100,000 satoshis.
abbrev utxos : ℕ → Result Error (List Utxo)
utxos address = ok (record { outpoint = 7; value = 100_000 } ∷ [])

abbrev wallet : Wallet
wallet = record {
  addresses = 3 ∷ [];
  get_utxos_for_address = utxos;
  get_script_pubkey = λ outpoint. ok (0 ∷ 20 ∷ []);
  get_pub_key = λ script. ok (2 ∷ 5 ∷ []);
  varint_len = λ n. 1;
  weight = λ inputs outputs. 40 + 400 * length inputs + 100 * length outputs;
}

abbrev recipients : List TxOut
recipients = record { value = 30_000; script_pubkey = 9 ∷ [] } ∷ []

-- The coin, and the change: the fee is 91 satoshis.
abbrev funded : PartiallySignedTransaction
funded = record {
  inputs =
      record {
        txin = record { previous_output = 7; script_sig = []; witness = [] };
        witness_utxo = record { value = 100_000; script_pubkey = 0 ∷ 20 ∷ [] };
      }
      ∷ [];
  outputs =
      record { value = 30_000; script_pubkey = 9 ∷ [] }
      ∷ record { value = 69_909; script_pubkey = 4 ∷ [] }
      ∷ [];
}
