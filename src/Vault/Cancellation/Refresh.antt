-- ===== src/Vault/Cancellation/Refresh.antt =====
-- `get_open_requests` (vault/src/cancellation.rs): the deadlines of the requests that are scheduled.
use interbtc_clients_cli.Prelude.{
  ℕ, ◌+◌, ◌≤◌, ◌≡◌, refl, ◌⊎◌, inl, inr, List, [], ◌∷◌, Result, ok, err, ◌>>=◌, map_result,
  AllPairs, map_result-AllPairs, arith, max,
}
use interbtc_clients_cli.Prelude.Words.{u32_max}
use interbtc_clients_cli.Vault.Deadline.{Error}
use interbtc_clients_cli.Vault.Deadline.Blocks.{bitcoin_blocks, to_bitcoin_blocks_lem}
use interbtc_clients_cli.Vault.Cancellation.{
  ActiveRequest, UnconvertedOpenTime, Canceller, CancellationScheduler, convert, convert_all,
  get_open_requests,
}

-- The request is scheduled under its id, and may be cancelled after the longer of the two periods
-- has passed since it was opened, on both chains.
pub record Deadlines (global_period : ℕ) (u : UnconvertedOpenTime) (r : ActiveRequest)
    : Type 0 where
  pub id_same : r.id ≡ u.id
  pub parachain_exact :
      r.parachain_deadline_height ≡ u.parachain_open_height + max global_period u.period
  pub bitcoin_exact :
      r.bitcoin_deadline_height
      ≡ u.bitcoin_open_height + bitcoin_blocks (max global_period u.period)

convert-Deadlines :
    (g : ℕ) (u : UnconvertedOpenTime) (r : ActiveRequest) → convert g u ≡ ok r → Deadlines g u r
unfolding convert
convert-Deadlines g u r h = ground (arith, to_bitcoin_blocks_lem (max g u.period))

-- The two ends of the longer period are numbers of type u32.
abbrev pub Fits : ℕ → UnconvertedOpenTime → Type 0
Fits g u =
    (u.parachain_open_height + max g u.period ≤ u32_max)
    × (u.bitcoin_open_height + bitcoin_blocks (max g u.period) ≤ u32_max)

convert_total :
    (g : ℕ) (u : UnconvertedOpenTime) → Fits g u → (r : ActiveRequest) × (convert g u ≡ ok r)
unfolding convert
convert_total g u h = (
  record {
    id = u.id;
    parachain_deadline_height = u.parachain_open_height + max g u.period;
    bitcoin_deadline_height = u.bitcoin_open_height + bitcoin_blocks (max g u.period);
  },
  ground (arith, to_bitcoin_blocks_lem (max g u.period)),
)

-- If the query of the open requests succeeds, the parachain has listed some requests and the
-- scheduled ones are these, one for each and in the same order, every one with the deadlines that
-- the longer of its own period and the parachain's gives; the period is not needed for no requests.
pub get_open_requests-Deadlines :
    (s : CancellationScheduler) (rpc : Canceller) {xs : List ActiveRequest}
    → get_open_requests s rpc ≡ ok xs
    → (us : List UnconvertedOpenTime) × (rpc.get_open_requests s.vault_id ≡ ok us)
      × ((us ≡ []) × (xs ≡ []) ⊎ ((g : ℕ) × (rpc.get_period ≡ ok g) × AllPairs (Deadlines g) us xs))
unfolding get_open_requests
get_open_requests-Deadlines s rpc {xs} h = listed (rpc.get_open_requests s.vault_id) refl h
  where
    timed :
        (u : UnconvertedOpenTime) (us : List UnconvertedOpenTime) (p : Result Error ℕ)
        → rpc.get_period ≡ p
        → (p >>= λ g. map_result (convert g) (u ∷ us)) ≡ ok xs
        → (g : ℕ) × (rpc.get_period ≡ ok g) × AllPairs (Deadlines g) (u ∷ us) xs
    timed u us (ok g) e k =
        (g, e, map_result-AllPairs (Deadlines g) (convert g) (convert-Deadlines g) (u ∷ us) xs k)
    timed u us (err _) e k = cc

    listed :
        (r : Result Error (List UnconvertedOpenTime))
        → rpc.get_open_requests s.vault_id ≡ r
        → (r >>= convert_all rpc) ≡ ok xs
        → (us : List UnconvertedOpenTime) × (rpc.get_open_requests s.vault_id ≡ ok us)
          × ((us ≡ []) × (xs ≡ [])
              ⊎ ((g : ℕ) × (rpc.get_period ≡ ok g) × AllPairs (Deadlines g) us xs))
    listed (ok []) e k = ([], e, inl (refl, cc))
    listed (ok (u ∷ us)) e k = (u ∷ us, e, inr (timed u us rpc.get_period refl k))
    listed (err _) e k = cc
