-- ===== src/Vault/Delay/Tests.antt =====
-- The places of the comment in vault/src/delay.rs, among vaults whose hashes are their accounts.
use interbtc_clients_cli.Prelude.{
  ℕ, suc, ◌+◌, ◌^◌, ◌≤◌, ◌<◌, ◌≡◌, refl, List, [], ◌∷◌, Result, ok, length,
}
use interbtc_clients_cli.Vault.Delay.{blocks_to_wait, delay}
use interbtc_clients_cli.Vault.Delay.Bounds.{IsOrdered, delay-bounds}

abbrev vaults : List ℕ
vaults = 5 ∷ 3 ∷ 8 ∷ 1 ∷ []

abbrev hash_of : ℕ → ℕ
hash_of account = account

third : blocks_to_wait hash_of 5 vaults ≡ 1
unfolding blocks_to_wait
third = refl

abbrev at_once : ℕ → Result (Unit {0}) (Unit {0})
at_once blocks = ok tt

delay-bounds_example :
    (earlier others : List ℕ) × (k : ℕ) × IsOrdered hash_of 5 vaults earlier others
    × (delay hash_of 5 at_once vaults ≡ at_once k)
    × (2 ^ k ≤ length earlier + 1)
    × (length earlier + 1 < 2 ^ suc k)
delay-bounds_example = delay-bounds hash_of 5 at_once vaults
