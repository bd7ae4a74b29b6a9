-- ===== src/Bitcoin/Wallet.antt =====
-- The light wallet (bitcoin/src/light/wallet.rs): sizes and fees, the selection of coins, and the
-- funding of a transaction. Amounts are u64 and wrap around in sums, as in a release build; sizes
-- are not bounded, as they stay far below.
pub mod Fund
pub mod Coins
pub mod Conserve
pub mod Funded
mod Tests
use interbtc_clients_cli.Prelude.{
  ℕ, zero, suc, ◌+◌, ◌-◌, ◌*◌, ◌/◌, ◌%◌, List, [], ◌∷◌, ◌++◌, map, Result, ok, err, ltb,
  if◌then◌else◌, length,
}
use interbtc_clients_cli.Prelude.Words.{u64_max, saturating_sub, saturating_mul}
use interbtc_clients_cli.Bitcoin.{TxOut}

abbrev pub u64_mod : ℕ
u64_mod = 18_446_744_073_709_551_616

abbrev pub add64 : ℕ → ℕ → ℕ
add64 a b = (a + b) % u64_mod

abbrev pub sub64 : ℕ → ℕ → ℕ
sub64 a b = (a + u64_mod - b) % u64_mod

-- `iter().sum::<u64>()`
abbrev pub sum64 : List ℕ → ℕ
sum64 [] = 0
sum64 (x ∷ xs) = add64 x (sum64 xs)

-- An outpoint is only compared; scripts and the items of a witness are lists of bytes.
pub record TxIn : Type 0 where
  pub previous_output : ℕ
  pub script_sig : List ℕ
  pub witness : List (List ℕ)

-- `VarInt(n).len()` is the library's; sizes depend on it.
module _ (varint_len : ℕ → ℕ) where
  unfoldable pub txout_serialize_size : TxOut → ℕ
  txout_serialize_size o = 8 + varint_len (length o.script_pubkey) + length o.script_pubkey

  unfoldable pub txin_serialize_size : TxIn → ℕ
  txin_serialize_size i = 32 + 4 + 4 + varint_len (length i.script_sig) + length i.script_sig

  unfoldable pub items_size : List (List ℕ) → ℕ
  items_size [] = 0
  items_size (elem ∷ items) = varint_len (length elem) + length elem + items_size items

  unfoldable pub witness_serialize_size : List (List ℕ) → ℕ
  unfolding items_size
  witness_serialize_size items = varint_len (length items) + items_size items

  unfoldable pub get_transaction_input_weight : TxIn → ℕ
  unfolding txin_serialize_size witness_serialize_size
  get_transaction_input_weight txin =
      txin_serialize_size txin * (4 - 1)
      + txin_serialize_size txin
      + witness_serialize_size txin.witness

-- `WITNESS_SCALE_FACTOR` is 4.
unfoldable pub get_virtual_transaction_size : ℕ → ℕ
get_virtual_transaction_size weight = (weight + 4 - 1) / 4

-- `n` zero bytes.
abbrev pub zeros : ℕ → List ℕ
zeros zero = []
zeros (suc n) = 0 ∷ zeros n

-- The 71 bytes of a signature in DER form with two numbers of 32 bytes, and the hash type 1.
unfoldable pub dummy_signature : List ℕ
dummy_signature =
    (0x30 ∷ 68 ∷ 0x02 ∷ 32 ∷ 0x01 ∷ [])
    ++ (zeros 31 ++ ((0x02 ∷ 32 ∷ 0x01 ∷ []) ++ (zeros 31 ++ (0x01 ∷ []))))

unfoldable pub dummy_sign_input : TxIn → List ℕ → TxIn
unfolding dummy_signature
dummy_sign_input txin public_key = record txin { witness = dummy_signature ∷ public_key ∷ [] }

unfoldable pub calculate_maximum_signed_input_size : (ℕ → ℕ) → ℕ → List ℕ → ℕ
unfolding get_virtual_transaction_size get_transaction_input_weight dummy_sign_input
calculate_maximum_signed_input_size varint_len outpoint public_key = get_virtual_transaction_size (
    get_transaction_input_weight varint_len (
      dummy_sign_input (record { previous_output = outpoint; script_sig = []; witness = [] })
        public_key))

-- `FeeRate::get_fee`: satoshis per 1000 virtual bytes, rounded up.
unfoldable pub get_fee : ℕ → ℕ → ℕ
get_fee n_satoshis_per_k num_bytes =
    (saturating_mul u64_max n_satoshis_per_k num_bytes + 999) / 1000

pub record CoinOutput : Type 0 where
  pub value : ℕ
  pub fee : ℕ

unfoldable pub get_effective_value : CoinOutput → ℕ
get_effective_value c = saturating_sub c.value c.fee

pub record SelectCoins : Type 0 where
  pub preset_inputs : List CoinOutput
  pub target_value : ℕ

unfoldable pub add_coin : SelectCoins → CoinOutput → SelectCoins
add_coin s c = record s { preset_inputs = s.preset_inputs ++ c ∷ [] }

unfoldable pub get_selected_value : SelectCoins → ℕ
get_selected_value s = sum64 (map (λ (c : CoinOutput). c.value) s.preset_inputs)

unfoldable pub get_selected_effective_value : SelectCoins → ℕ
get_selected_effective_value s = sum64 (map get_effective_value s.preset_inputs)

unfoldable pub get_change : SelectCoins → ℕ → ℕ → ℕ
unfolding get_selected_effective_value
get_change s min_viable_change change_fee =
    let change =
      saturating_sub (saturating_sub (get_selected_effective_value s) s.target_value) change_fee in
    if ltb change min_viable_change then 0 else change
