-- ===== src/Vault/IssueSet.antt =====
-- The set of issue requests that are watched (vault/src/types.rs): `ReversibleHashMap`, a map from
-- the ids of the requests to their addresses together with the map back. A `HashMap` is a function
-- into options, and ids and addresses are numbers.
pub mod Reversible
pub mod Derived
mod Tests
use interbtc_clients_cli.Prelude.{ℕ, Option, none, some, ◌==◌, if◌then◌else◌}

-- What stands under a key afterwards is set.
unfoldable pub put : ℕ → Option ℕ → (ℕ → Option ℕ) → ℕ → Option ℕ
put k o m j = if j == k then o else m j

pub record ReversibleHashMap : Type 0 where
  pub by_key : ℕ → Option ℕ
  pub by_value : ℕ → Option ℕ

unfoldable pub new : ReversibleHashMap
new = record { by_key = λ k. none; by_value = λ v. none }

-- The map afterwards.
unfoldable pub insert : ReversibleHashMap → ℕ → ℕ → ReversibleHashMap
unfolding put
insert m k v = record { by_key = put k (some v) m.by_key; by_value = put v (some k) m.by_value }

-- What `insert` returns: the key that the value had, and the value that the key had.
unfoldable pub replaced : ReversibleHashMap → ℕ → ℕ → Option ℕ × Option ℕ
replaced m k v = (m.by_value v, m.by_key k)

-- A key and a value are forgotten.
unfoldable pub forget : ReversibleHashMap → ℕ → ℕ → ReversibleHashMap
unfolding put
forget m k v = record { by_key = put k none m.by_key; by_value = put v none m.by_value }

unfoldable pub remove_key : ReversibleHashMap → ℕ → ReversibleHashMap × Option ℕ
unfolding forget
remove_key m k = elim (m.by_key k) [ some v ↦ (forget m k v, some v) | none ↦ (m, none) ]

unfoldable pub remove_value : ReversibleHashMap → ℕ → ReversibleHashMap × Option ℕ
unfolding forget
remove_value m v = elim (m.by_value v) [ some k ↦ (forget m k v, some k) | none ↦ (m, none) ]

unfoldable pub get_key_for_value : ReversibleHashMap → ℕ → Option ℕ
get_key_for_value m v = m.by_value v
