-- ===== src/Vault/Execution/Scan.antt =====
-- The open requests against the whole scan of the chain (`execute_open_requests`,
-- vault/src/execution.rs).
use interbtc_clients_cli.Prelude.{
  ℕ, suc, ◌+◌, ◌<◌, ◌≡◌, refl, ap, ◌∙◌, true, Option, some, List, ◌++◌, map, Result, ok,
}
use mathlib.Core.List.{flat_map}
use interbtc_clients_cli.Bitcoin.{Block, Transaction, BitcoinCoreApi}
use interbtc_clients_cli.Bitcoin as Node
use interbtc_clients_cli.Bitcoin.Iter.{reverse_stream_transactions}
use interbtc_clients_cli.Bitcoin.Iter.Reverse.{
  HasChain, descending, reverse_stream_transactions-descending,
}
use interbtc_clients_cli.Bitcoin.TransactionExt.{BitcoinTypes}
use interbtc_clients_cli.Vault.Deadline.{Request, InterBtcRedeemRequest, InterBtcReplaceRequest}
use interbtc_clients_cli.Vault.Execution.{
  collect_open_requests, Listed, min_height, Task, spawn_tasks, execute_from, execute_open_requests,
}
use interbtc_clients_cli.Vault.Execution.Lowest.{IsLowest, IsLowest-min_height, open-Distinct}
use interbtc_clients_cli.Vault.Execution.Open.{open_request, get-collect_open_requests}
use interbtc_clients_cli.Vault.Execution.Assigned.{tasks_for, expected, spawn_tasks-expected}

-- The transactions of the mempool and then those of the blocks, from the best one down.
abbrev pub scanned :
    (ℕ → Block)
    → ℕ
    → ℕ
    → List (Result Node.Error Transaction)
    → List (Result Node.Error Transaction)
scanned block stop n mempool =
    mempool ++ map ok (flat_map (λ (b : Block). b.txdata) (descending block stop (suc n)))

-- The queries of the parachain and of the mempool succeed, the node has a chain up to its best
-- height, and the lowest height of an open request is above 0 and n below the best one. Then, with
-- n + 2 pulls of the stream of blocks, the function ends with tasks. For each hash they hold exactly
-- one task, if there is an open request with it, and else none. The open request with a hash is the last
-- pending one with deadlines in the list of replace requests, or else in that of redeem requests. The
-- task is to wait for the first transaction
-- that pays the request, in the mempool and then in the blocks from the best one down to the lowest
-- height; or to pay the request, if no such transaction is there.
pub execute_open_requests-expected :
    (types : BitcoinTypes) (to_payload : ℕ → Option ℕ) (rpc : BitcoinCoreApi) (best : ℕ)
    (hash : ℕ → ℕ) (block : ℕ → Block) (redeems : List (Listed InterBtcRedeemRequest))
    (replaces : List (Listed InterBtcReplaceRequest)) (margin stop n : ℕ)
    (mempool : List (Result Node.Error Transaction))
    → HasChain rpc best hash block
    → IsLowest (open_request redeems replaces margin) stop
    → 0 < stop
    → stop + n ≡ best
    → rpc.get_mempool_transactions ≡ ok mempool
    → (tasks : List Task) × (execute_open_requests types to_payload rpc
          (n + 2)
          (ok redeems)
          (ok replaces)
          margin
        ≡ ok tasks)
      × ((h : ℕ)
          → tasks_for h tasks
            ≡ expected types to_payload
                (open_request redeems replaces margin h)
                (scanned block stop n mempool))
unfolding execute_open_requests execute_from
execute_open_requests-expected types to_payload rpc best hash block redeems replaces margin stop n
      mempool chain lowest above reach pool =
    let least : min_height (collect_open_requests redeems replaces margin) ≡ some stop =
      IsLowest-min_height redeems replaces margin stop lowest in
    let requests : List Request = collect_open_requests redeems replaces margin in
    let items : List (Result Node.Error Transaction) = scanned block stop n mempool in
    let scan : reverse_stream_transactions rpc stop (n + 2) ≡ ok (items, true) =
      reverse_stream_transactions-descending rpc best hash block chain stop n mempool above reach
        pool in
    (
      spawn_tasks types to_payload items requests,
      rw (least, scan, execute_from) refl,
      λ h.
          spawn_tasks-expected types to_payload items requests h
            (open-Distinct redeems replaces margin)
          ∙ ap (λ o. expected types to_payload o items)
              (get-collect_open_requests redeems replaces margin h),
    )
