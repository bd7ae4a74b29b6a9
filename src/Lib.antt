-- ===== src/Lib.antt =====
-- The interbtc clients: the programs that a vault operator runs beside the parachain. The parts that
-- are modelled keep the money: the Bitcoin library finds payments and funds new ones; the vault
-- client executes issue, redeem and replace requests, cancels expired ones, and relays Bitcoin headers
-- to the parachain. Beside them stand the oracle, which submits exchange rates, and the faucet, which
-- funds new accounts. Each client runs under the loop of its service, which starts it again
-- when it has lost its connection (Service).
--
-- How the parts work together: when a vault starts, it lists its open requests on the parachain,
-- scans the mempool and the chain of Bitcoin from the newest block down (Bitcoin.Iter), and matches
-- the transactions with the requests (Bitcoin.TransactionExt, Vault.Execution). A request with a
-- payment is only waited for; any other is paid and executed (Vault.Payment), with a deadline that
-- was computed from the request (Vault.Deadline), a transaction that the light wallet funds
-- (Bitcoin.Wallet) or Bitcoin Core (Bitcoin.Core), and retries of the calls of the parachain (Runtime).
-- Listeners keep the set of the issue requests that are open (Vault.IssueSet), and a task for each
-- transaction in a new block executes the one that it pays (Vault.Issue). Beside that, the scheduler
-- cancels issue and replace requests that have expired (Vault.Cancellation), and the relayer keeps
-- the relay on the parachain up to date (Vault.Relay).
--
-- Prelude is the shared ground: Boolean tests on numbers, lists, `Result` with its bind, and checked
-- and saturating arithmetic on machine words, with the largest word as an argument.
--
-- Bitcoin/Iter: bitcoin/src/iter.rs. `reverse_stream_blocks` unfolds `reverse_step` from
--   `initial_state`; a stream is the list of its first items and whether it has ended, and the number
--   of pulls is the bound. Reverse is about the pulls that a chain needs, Endless about the stop height 0.
--   `stream_blocks` reads the answers of `wait_for_block` in turn
--   (Forward).
-- Bitcoin/Wallet: bitcoin/src/light/wallet.rs. Wallet has sizes, fees and the selection of coins
--   (`FeeRate::get_fee`, `CoinOutput`, `SelectCoins`); Wallet/Fund has `fund_transaction`, with its
--   two loops as `select_addresses` and `select_utxos` and a round as `take_utxo` and
--   `check_selected`; what happens once enough is selected is `settle`. Amounts are u64, and sums wrap
--   around as in a release build. Coins, Conserve and Funded have the proofs.
-- Bitcoin/Rpc and Bitcoin/Core: bitcoin/src/error.rs and the client of Bitcoin Core in
--   bitcoin/src/lib.rs. A loop of polls reads a list of answers, and returns or still waits at its end;
--   a call that is tried again is a function of the number of the attempt (Core/Calls:
--   `with_wallet_inner`, `bump_fee`, `wait_for_transaction_metadata`), with the backoff as the list of
--   its waits. Attempts, Blocks, Confirmed and Kept have the proofs.
-- Bitcoin/TransactionExt: the trait of that name in bitcoin/src/lib.rs, and `create_transaction` of
--   the light wallet as `create_outputs`.
-- Runtime: `notify_retry` (runtime/src/retry.rs). The backoff of the library is the list of its waits.
-- Vault/Deadline: `calculate_deadline` and the constructors of `Request` (vault/src/execution.rs).
-- Vault/Execution: `execute_open_requests` and `get_request_for_btc_tx` (vault/src/execution.rs), up
--   to the tasks that are spawned. Keys, Open and Lowest are about the map of the requests, Assigned
--   about the tasks of a list of transactions, Scan about the whole scan, Recognised about the wallet's own payments.
-- Vault/Payment: `wait_for_inclusion`, and in Payment/Transfer `pay_and_execute`, `transfer_btc` and
--   `execute` (vault/src/execution.rs). What happens during the wait is a list of moments; a round of
--   the loops is `step`. Steps, Included, Paid and Success have the proofs; Kept and Bumped are
--   about the transactions that `bump_fee` makes.
-- Vault/IssueSet: `ReversibleHashMap` (vault/src/types.rs), two functions into options.
-- Vault/Issue: vault/src/issue.rs. A task for a transaction is `process_transaction_and_execute_issue`,
--   the handlers of the events are in Listeners, and Run puts both together over the set, one step at a
--   time, as the set is locked during a step. Rescan has the search for past requests. Execute, Processed,
--   Once, Listed and Covered have the proofs.
-- Vault/Cancellation: vault/src/cancellation.rs. `process_event` takes the list of active requests and
--   the state of the list to new ones; what the parachain answers during an event is its argument.
--   `handle_cancellation` runs over a list of events. The loop that drains the list of active requests
--   has one round more of fuel than the list is long, which is enough as each round removes a member
--   or passes one.
-- Faucet: `atomic_faucet_funding` and its tests (faucet/src/http.rs), for one account and currency at
--   a time, with the transfers that it asks for; Cooldown is about runs of calls, one after the other.
-- Vault/Replace: vault/src/replace.rs; `try_vaults` is the loop over the vaults of the client.
-- Vault/Process: vault/src/process.rs, over the text of the file. Runs has clients that look at the file
--   and write it in two steps, Exclusive is about runs in which these do not overlap.
-- Vault/Payment/Handlers: vault/src/redeem.rs, and `listen_for_accept_replace` of vault/src/replace.rs. The
--   task that a handler spawns is a part of its outcome.
-- Vault/Delay: vault/src/delay.rs. `log2` halves at most as often as its argument counts, which is enough.
-- Oracle: oracle/src/currency.rs, and in Config and Feeds oracle/src/config.rs and oracle/src/feeds.rs.
--   A price is an element of an abstract type with the product and the inversion that the code calls;
--   the theorems assume no law of these operations. Units, Routes and Quotes have the proofs.
-- Vault/Relay: vault/src/relay/mod.rs. `submit_next` works on a state of the relay through the record
--   `Issuing` and reads the Bitcoin node through `Backing`. Its loops have fuel; the bounds on it stand
--   with the theorems that show them to be enough. Chains: vault/src/relay/backing.rs and
--   vault/src/relay/issuing.rs, and `run_relayer` over the results of its rounds.
-- Service: service/src/lib.rs. `start` runs over the answers of the rounds that its loop makes, in order;
--   a list that ends before the loop returns stands for a client that still runs. Restarts says when it returns.
--
-- What stands outside the model is a parameter: the answers of the Bitcoin node, the parachain and the
-- electrs server, scripts, addresses, hashes and transaction weights of the library of Bitcoin types.
-- Logging, metrics and delays are left out, as no result depends on them; the shutdown signal, which
-- may end a task at any time, is modelled in Service only. Not
-- modelled: the runner; the server of the faucet; the start of the oracle and the queries of its feeds;
-- refunds, whose file is not a module of the crate; the clients of the parachain
-- and of electrs, which only pass calls on; the signing of transactions.
pub mod Prelude
pub mod Bitcoin
pub mod Faucet
pub mod Oracle
pub mod Runtime
pub mod Service
pub mod Vault
