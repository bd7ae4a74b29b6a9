-- ===== src/Vault/IssueSet/Tests.antt =====
-- The test of vault/src/types.rs, and an insertion into a set with one request.
use interbtc_clients_cli.Prelude.{◌≡◌, refl, ◌↔◌, inl, none, some}
use interbtc_clients_cli.Vault.IssueSet.{
  ReversibleHashMap, new, insert, replaced, remove_key, get_key_for_value, put,
}
use interbtc_clients_cli.Vault.IssueSet.Reversible.{
  IsReversible, Fits, new-IsReversible, insert-keeps, insert-IsReversible,
}

abbrev one_pair : ReversibleHashMap
one_pair = insert new 13 37

first_insert : replaced new 13 37 ≡ (none, none)
unfolding new replaced
first_insert = refl

second_insert : replaced one_pair 13 37 ≡ (some 13, some 37)
unfolding new insert put replaced
second_insert = refl

found : get_key_for_value one_pair 37 ≡ some 13
unfolding new insert put get_key_for_value
found = refl

removed : (remove_key one_pair 13).1 ≡ some 37
unfolding new insert put remove_key
removed = refl

removed_again : (remove_key one_pair 37).1 ≡ none
unfolding new insert put remove_key
removed_again = refl

one_pair-IsReversible : IsReversible one_pair
unfolding new replaced
one_pair-IsReversible = insert-keeps new 13 37 new-IsReversible (inl refl)

insert-IsReversible_example : IsReversible (insert one_pair 13 38) ↔ Fits one_pair 13 38
insert-IsReversible_example = insert-IsReversible one_pair 13 38 one_pair-IsReversible
