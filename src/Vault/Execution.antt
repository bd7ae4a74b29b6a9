-- ===== src/Vault/Execution.antt =====
-- The execution of open requests (vault/src/execution.rs): which of them have a payment, and which
-- the vault pays. A `HashMap` from the hash of a request to the request is a list of requests with
-- different hashes; its order is not fixed in the code, and no theorem reads more than what stands
-- under each hash.
pub mod Keys
pub mod Open
pub mod Lowest
pub mod Payments
pub mod Assigned
pub mod Scan
pub mod Recognised
mod Tests
use interbtc_clients_cli.Prelude.{
  ℕ, ◌+◌, Bool, true, false, not, Option, none, some, List, [], ◌∷◌, ◌++◌, map, Result, ok, err,
  ◌>>=◌, leb, ltb, ◌==◌, if◌then◌else◌, select, find_map,
}
use interbtc_clients_cli.Prelude.Words.{u32_max}
use interbtc_clients_cli.Bitcoin.{Transaction, BitcoinCoreApi}
use interbtc_clients_cli.Bitcoin as Node
use interbtc_clients_cli.Bitcoin.Iter.{reverse_stream_transactions}
use interbtc_clients_cli.Bitcoin.TransactionExt.{BitcoinTypes, get_op_return, get_payment_amount_to}
use interbtc_clients_cli.Vault.Deadline.{
  Request, InterBtcRedeemRequest, InterBtcReplaceRequest, from_redeem_request, from_replace_request,
}
use interbtc_clients_cli.Vault.Deadline as Deadlines

-- `hash_map.get(&hash)`
unfoldable pub get : ℕ → List Request → Option Request
get hash [] = none
get hash (r ∷ rs) = if r.hash == hash then some r else get hash rs

-- `retain(|&key, _| key != hash)`
unfoldable pub remove : ℕ → List Request → List Request
remove hash = select (λ (r : Request). not (r.hash == hash))

-- `map(|x| (x.hash, x)).collect::<HashMap<_, _>>()`: a later request replaces an earlier one.
unfoldable pub collect : List Request → List Request
unfolding remove
collect [] = []
collect (r ∷ rs) =
    let rest = collect rs in elim (get r.hash rest) [ none ↦ r ∷ rest | some later ↦ rest ]

-- A redeem or replace request as the parachain lists it, and whether its status is `Pending`.
pub record Listed (R : Type 0) : Type 0 where
  pub hash : ℕ
  pub request : R
  pub pending : Bool

-- `filter(status == Pending)`, and then `filter_map(.. .ok())` with the construction of a request.
unfoldable pub open_listed :
    {R : Type 0} → (ℕ → R → Result Deadlines.Error Request) → List (Listed R) → List Request
open_listed build [] = []
open_listed build (x ∷ xs) =
    let rest = open_listed build xs in
    if x.pending then elim (build x.hash x.request) [ ok r ↦ r ∷ rest | err e ↦ rest ] else rest

unfoldable pub collect_open_requests :
    List (Listed InterBtcRedeemRequest) → List (Listed InterBtcReplaceRequest) → ℕ → List Request
unfolding collect open_listed
collect_open_requests redeems replaces payment_margin = collect (
    open_listed (λ hash r. from_redeem_request hash r payment_margin) redeems
    ++ open_listed (λ hash r. from_replace_request hash r payment_margin) replaces)

-- `request.btc_height.unwrap_or(u32::MAX)`
abbrev pub height_of : Request → ℕ
height_of r = elim r.btc_height [ none ↦ u32_max | some h ↦ h ]

-- `iter().map(..).min()`
unfoldable pub min_height : List Request → Option ℕ
min_height [] = none
min_height (r ∷ rs) = elim (min_height rs) [
  | none ↦ some (height_of r)
  | some h ↦ some (if leb (height_of r) h then height_of r else h)
]

-- The tasks that are spawned: to wait for the inclusion of a transaction that pays a request and
-- then execute it, or to pay and execute a request.
pub data Task : Type 0 where
  await_payment : Request → ℕ → Task
  pay_and_execute : Request → Task

-- Why no tasks are spawned: a query of the parachain or of the mempool failed, or the stream of
-- transactions had not ended after the given pulls.
pub data Failure : Type 0 where
  query_failed not_ended : Failure

-- The libraries of Bitcoin types, and the payload of an address, if there is one.
module _ (types : BitcoinTypes) (to_payload : ℕ → Option ℕ) where
  -- Whether a transaction pays a request enough.
  unfoldable pub pays_amount : Transaction → Request → Bool
  pays_amount tx request = elim (to_payload request.btc_address) [
    | none ↦ false
    | some payload ↦ elim (get_payment_amount_to types tx payload) [
      | none ↦ false
      | some paid_amount ↦ leb request.amount paid_amount
    ]
  ]

  unfoldable pub get_request_for_btc_tx : Transaction → List Request → Option Request
  unfolding pays_amount
  get_request_for_btc_tx tx hash_map = elim (get_op_return types tx) [
    | none ↦ none
    | some hash ↦ elim (get hash hash_map) [
      | none ↦ none
      | some request ↦ if pays_amount tx request then some request else none
    ]
  ]

  -- The loop over the items of the stream: the tasks it spawns, and the requests that remain.
  unfoldable pub match_transactions :
      List (Result Node.Error Transaction) → List Request → List Task × List Request
  unfolding remove
  match_transactions [] open_requests = ([], open_requests)
  match_transactions (err e ∷ items) open_requests = match_transactions items open_requests
  match_transactions (ok tx ∷ items) open_requests =
      elim (get_request_for_btc_tx tx open_requests) [
        | none ↦ match_transactions items open_requests
        | some request ↦
            let (tasks, rest) = match_transactions items (remove request.hash open_requests) in
            (await_payment request tx.txid ∷ tasks, rest)
      ]

  -- The tasks for the items of the stream and the open requests.
  unfoldable pub spawn_tasks : List (Result Node.Error Transaction) → List Request → List Task
  unfolding match_transactions
  spawn_tasks items open_requests =
      let (tasks, rest) = match_transactions items open_requests in
      tasks ++ map pay_and_execute rest

  -- The stream, from the lowest height on.
  unfoldable pub execute_from :
      BitcoinCoreApi → ℕ → List Request → Option ℕ → Result Failure (List Task)
  unfolding spawn_tasks
  execute_from rpc pulls open_requests none = ok []
  execute_from rpc pulls open_requests (some btc_start_height) =
      elim (reverse_stream_transactions rpc btc_start_height pulls) [
        | err e ↦ err query_failed
        | ok (items, ended) ↦ if ended then ok (spawn_tasks items open_requests) else err not_ended
      ]

  -- The function up to the tasks; `pulls` bounds the pulls of the stream of blocks.
  unfoldable pub execute_open_requests :
      BitcoinCoreApi
      → ℕ
      → Result Failure (List (Listed InterBtcRedeemRequest))
      → Result Failure (List (Listed InterBtcReplaceRequest))
      → ℕ
      → Result Failure (List Task)
  unfolding execute_from collect_open_requests min_height
  execute_open_requests rpc pulls redeem_requests replace_requests payment_margin = do
    redeems ← redeem_requests
    replaces ← replace_requests
    let open_requests = collect_open_requests redeems replaces payment_margin
    execute_from rpc pulls open_requests (min_height open_requests)
