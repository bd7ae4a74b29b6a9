-- ===== src/Vault/Deadline/Bounds.antt =====
-- When a deadline is computed (vault/src/execution.rs), what it is, and how far it lies from the
-- end of the request's period.
use interbtc_clients_cli.Prelude.{ℕ, ◌+◌, ◌-◌, ◌*◌, ◌/◌, ◌≤◌, ◌<◌, ◌≡◌, ok, err, arith}
use interbtc_clients_cli.Prelude.Words.{u32_max}
use interbtc_clients_cli.Vault.Deadline.{
  Deadline, arithmetic_underflow, millisecs_per_block, bitcoin_block_interval, calculate_deadline,
}
use interbtc_clients_cli.Vault.Deadline.Blocks.{
  bitcoin_blocks, to_bitcoin_blocks_lem, duration_to_parachain_blocks_lem,
  duration_to_parachain_blocks_long,
}

-- The margin in parachain blocks, rounded down.
abbrev pub margin_blocks : ℕ → ℕ
margin_blocks m = m / millisecs_per_block

-- The steps of the computation, one fact for each that succeeded.
pub record Computes (o b p m : ℕ) (d : Deadline) : Type 0 where
  pub margin_fits : margin_blocks m ≤ u32_max
  pub parachain_fits : o + p ≤ u32_max
  pub parachain_exact : d.parachain + margin_blocks m ≡ o + p
  pub bitcoin_fits : b + bitcoin_blocks p ≤ u32_max
  pub bitcoin_exact : d.bitcoin + bitcoin_blocks (margin_blocks m) ≡ b + bitcoin_blocks p

pub calculate_deadline-Computes :
    (o b p m : ℕ) {d : Deadline}
    → p ≤ u32_max
    → calculate_deadline o b p m ≡ ok d
    → Computes o b p m d
unfolding calculate_deadline
calculate_deadline-Computes o b p m hp e = ground (
  arith,
  to_bitcoin_blocks_lem p hp,
  to_bitcoin_blocks_lem (margin_blocks m),
  duration_to_parachain_blocks_lem m,
  duration_to_parachain_blocks_long m,
)

-- What the payer is promised: counted in milliseconds from the opening of the request at `o` and
-- `b`, the parachain deadline lies the margin before the end of the period, up to one block later,
-- and the Bitcoin deadline lies as far from there, up to one Bitcoin block either way.
pub record Window (o b p m : ℕ) (d : Deadline) : Type 0 where
  pub parachain_lower : (o + p) * millisecs_per_block ≤ d.parachain * millisecs_per_block + m
  pub parachain_upper : d.parachain * millisecs_per_block + m < (o + p + 1) * millisecs_per_block
  pub bitcoin_lower :
      b * bitcoin_block_interval + p * millisecs_per_block
      < (d.bitcoin + 1) * bitcoin_block_interval + m
  pub bitcoin_upper :
      d.bitcoin * bitcoin_block_interval + m
      < (b + 1) * bitcoin_block_interval + (p + 1) * millisecs_per_block

-- Whenever a deadline is computed from u32 heights and a u32 period, it lies in the window: the
-- parachain deadline is the margin before the end of the period, rounded up by less than a block,
-- and the Bitcoin deadline is within one Bitcoin block of that time before, and within one Bitcoin
-- and one parachain block after.
pub calculate_deadline-Window :
    (o b p m : ℕ) {d : Deadline}
    → p ≤ u32_max
    → calculate_deadline o b p m ≡ ok d
    → Window o b p m d
calculate_deadline-Window o b p m hp e = omega (arith, calculate_deadline-Computes o b p m hp e)

-- A deadline is computed whenever the margin is no longer than the period and neither end of the
-- period exceeds u32: the subtractions of the margin cannot fail then.
pub calculate_deadline_total :
    (o b p m : ℕ)
    → o + p ≤ u32_max
    → b + bitcoin_blocks p ≤ u32_max
    → m ≤ p * millisecs_per_block
    → (d : Deadline) × (calculate_deadline o b p m ≡ ok d)
unfolding calculate_deadline
calculate_deadline_total o b p m ho hb hm = (
  record {
    parachain = o + p - margin_blocks m;
    bitcoin = b + bitcoin_blocks p - bitcoin_blocks (margin_blocks m);
  },
  ground (
    arith,
    to_bitcoin_blocks_lem p,
    to_bitcoin_blocks_lem (margin_blocks m),
    duration_to_parachain_blocks_lem m,
  ),
)

-- A longer margin never gives a later deadline, on either chain.
pub calculate_deadline_mono :
    (o b p m m' : ℕ) {d d' : Deadline}
    → p ≤ u32_max
    → m ≤ m'
    → calculate_deadline o b p m ≡ ok d
    → calculate_deadline o b p m' ≡ ok d'
    → (d'.parachain ≤ d.parachain) × (d'.bitcoin ≤ d.bitcoin)
calculate_deadline_mono o b p m m' hp hm e e' =
    omega
      (arith, calculate_deadline-Computes o b p m hp e, calculate_deadline-Computes o b p m' hp e')

-- The request asks for a payment only if its period has room for the margin: with a margin that
-- goes back beyond height zero of the parachain the request is refused as an underflow.
pub calculate_deadline_underflow :
    (o b p m : ℕ)
    → margin_blocks m ≤ u32_max
    → o + p ≤ u32_max
    → o + p < margin_blocks m
    → calculate_deadline o b p m ≡ err arithmetic_underflow
unfolding calculate_deadline
calculate_deadline_underflow o b p m hm ho hlt = ground (arith, duration_to_parachain_blocks_lem m)
