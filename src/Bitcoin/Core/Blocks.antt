-- ===== src/Bitcoin/Core/Blocks.antt =====
-- The wait for a block (`wait_for_block`, bitcoin/src/lib.rs).
use interbtc_clients_cli.Prelude.{
  ℕ, ◌^◌, ◌<◌, ◌≤◌, ◌≡◌, refl, sym, ◌∙◌, ap, Bool, true, false, List, [], ◌∷◌, Result, ok, err, leb,
  leb→le, lt→ltb, if◌then◌else◌, ◌↔◌, arith,
}
use interbtc_clients_cli.Bitcoin.{Block}
use interbtc_clients_cli.Bitcoin.Rpc.{Error, is_invalid_parameter, ℤ, pos, negsuc, geb}
use interbtc_clients_cli.Bitcoin.Core.{as_i32, Polled, returned, BlockPoll, wait_for_block}

-- A poll that finds no block with enough confirmations yet: there is no block at the height, or it has
-- fewer, or it has left the main chain.
pub data IsEarly (n : ℕ) (poll : BlockPoll) : Type 0 where
  no_block :
      (e : Error) → poll.get_block_hash ≡ err e → is_invalid_parameter e ≡ true → IsEarly n poll
  unconfirmed :
      (hash confirmations : ℕ)
      → poll.get_block_hash ≡ ok hash
      → poll.get_block_info hash ≡ ok (pos confirmations)
      → confirmations < n
      → IsEarly n poll
  not_in_chain :
      (hash m : ℕ)
      → poll.get_block_hash ≡ ok hash
      → poll.get_block_info hash ≡ ok (negsuc m)
      → IsEarly n poll

-- A poll that finds the block, with its confirmations.
pub record IsFound (n : ℕ) (poll : BlockPoll) (result : Result Error Block) : Type 0 where
  pub hash : ℕ
  pub confirmations : ℕ
  pub at_height : poll.get_block_hash ≡ ok hash
  pub confirmed : poll.get_block_info hash ≡ ok (pos confirmations)
  pub enough : n ≤ confirmations
  pub block : poll.get_block hash ≡ result

-- How a wait ends with a block, or the failure to read it: some polls are early, and then one finds it.
pub data EndsWith (n : ℕ) (b : Block) : List BlockPoll → Type 0 where
  found :
      (poll : BlockPoll) (polls : List BlockPoll)
      → IsFound n poll (ok b)
      → EndsWith n b (poll ∷ polls)
  early :
      (poll : BlockPoll) (polls : List BlockPoll)
      → IsEarly n poll
      → EndsWith n b polls
      → EndsWith n b (poll ∷ polls)

cast : (n : ℕ) → n < 2 ^ 31 → as_i32 n ≡ pos n
unfolding as_i32
cast n h = rw (lt→ltb n (2 ^ 31) h) refl

wait_for_block-EndsWith :
    (n : ℕ) (b : Block) (polls : List BlockPoll)
    → n < 2 ^ 31
    → wait_for_block n polls ≡ returned (ok b)
    → EndsWith n b polls
unfolding wait_for_block geb
wait_for_block-EndsWith n b [] small h = cc
wait_for_block-EndsWith n b (poll ∷ polls) small h =
    first poll.get_block_hash refl (wait_for_block-EndsWith n b polls small) h
  where
    Rest : Type 0
    Rest = wait_for_block n polls ≡ returned (ok b) → EndsWith n b polls

    test :
        (hash : ℕ) (c : ℤ) (t : Bool)
        → poll.get_block_hash ≡ ok hash
        → poll.get_block_info hash ≡ ok c
        → geb c (pos n) ≡ t
        → Rest
        → (if t then returned (poll.get_block hash) else wait_for_block n polls) ≡ returned (ok b)
        → EndsWith n b (poll ∷ polls)
    test hash (pos k) true e e' t rest h = found poll polls (record {
      hash = hash;
      confirmations = k;
      at_height = e;
      confirmed = e';
      enough = leb→le n k t;
      block = cc;
    })
    test hash (pos k) false e e' t rest h =
        early poll polls (unconfirmed hash k e e' (ground (arith, t))) (rest h)
    test hash (negsuc m) true e e' t rest h = cc
    test hash (negsuc m) false e e' t rest h = early poll polls (not_in_chain hash m e e') (rest h)

    info :
        (hash : ℕ) (c : Result Error ℤ)
        → poll.get_block_hash ≡ ok hash
        → poll.get_block_info hash ≡ c
        → Rest
        → elim c as (λ _. Polled Block) [
          | err e ↦ returned (err e)
          | ok confirmations ↦
              if geb confirmations (as_i32 n)
              then returned (poll.get_block hash)
              else wait_for_block n polls
        ]
          ≡ returned (ok b)
        → EndsWith n b (poll ∷ polls)
    info hash (err f) e e' rest h = cc
    info hash (ok c) e e' rest h =
        test hash c (geb c (as_i32 n)) e e' (ap (geb c) (sym (cast n small))) rest h

    none_yet :
        (f : Error) (t : Bool)
        → poll.get_block_hash ≡ err f
        → is_invalid_parameter f ≡ t
        → Rest
        → (if t then wait_for_block n polls else returned (err f)) ≡ returned (ok b)
        → EndsWith n b (poll ∷ polls)
    none_yet f true e t rest h = early poll polls (no_block f e t) (rest h)
    none_yet f false e t rest h = cc

    first :
        (hash : Result Error ℕ)
        → poll.get_block_hash ≡ hash
        → Rest
        → elim hash as (λ _. Polled Block) [
          | err e ↦ if is_invalid_parameter e then wait_for_block n polls else returned (err e)
          | ok hash ↦ elim (poll.get_block_info hash) [
            | err e ↦ returned (err e)
            | ok confirmations ↦
                if geb confirmations (as_i32 n)
                then returned (poll.get_block hash)
                else wait_for_block n polls
          ]
        ]
          ≡ returned (ok b)
        → EndsWith n b (poll ∷ polls)
    first (err f) e rest h = none_yet f (is_invalid_parameter f) e refl rest h
    first (ok hash) e rest h = info hash (poll.get_block_info hash) e refl rest h

early-waits :
    (n : ℕ) (poll : BlockPoll) (polls : List BlockPoll)
    → n < 2 ^ 31
    → IsEarly n poll
    → wait_for_block n (poll ∷ polls) ≡ wait_for_block n polls
unfolding wait_for_block geb
early-waits n poll polls small (no_block f e t) = rw (e, t, wait_for_block) refl
early-waits n poll polls small (unconfirmed hash k e e' l) =
    rw (e, e', cast n small, few, wait_for_block) refl
  where
    few : leb n k ≡ false
    few = ground (arith, l)
early-waits n poll polls small (not_in_chain hash m e e') =
    rw (e, e', cast n small, wait_for_block) refl

found-returns :
    (n : ℕ) (poll : BlockPoll) (polls : List BlockPoll) (b : Block)
    → n < 2 ^ 31
    → IsFound n poll (ok b)
    → wait_for_block n (poll ∷ polls) ≡ returned (ok b)
unfolding wait_for_block geb
found-returns n poll polls b small f =
    rw (f.at_height, f.confirmed, cast n small, many, f.block, wait_for_block) refl
  where
    many : leb n f.confirmations ≡ true
    many = let l = f.enough in ground (arith, l)

EndsWith-returns :
    (n : ℕ) (b : Block) (polls : List BlockPoll)
    → n < 2 ^ 31
    → EndsWith n b polls
    → wait_for_block n polls ≡ returned (ok b)
EndsWith-returns n b _ small (found poll polls f) = found-returns n poll polls b small f
EndsWith-returns n b _ small (early poll polls i e) =
    early-waits n poll polls small i ∙ EndsWith-returns n b polls small e

-- Let the number of confirmations be below 2^31. The wait for a block returns a block if and only if,
-- after some polls that find no block at the height, or one with fewer confirmations, or one that has
-- left the main chain, a poll finds a block at the height with at least this number, and reads it.
pub wait_for_block_ends :
    (n : ℕ) (b : Block) (polls : List BlockPoll)
    → n < 2 ^ 31
    → (wait_for_block n polls ≡ returned (ok b) ↔ EndsWith n b polls)
wait_for_block_ends n b polls small =
    (wait_for_block-EndsWith n b polls small, EndsWith-returns n b polls small)
