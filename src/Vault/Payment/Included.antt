-- ===== src/Vault/Payment/Included.antt =====
-- The wait for the inclusion of a payment (`wait_for_inclusion`, vault/src/execution.rs): which
-- transaction it ends with.
use interbtc_clients_cli.Prelude.{
  ℕ, ◌≡◌, refl, ap, subst, ◌∙◌, Bool, false, Option, List, [], ◌∷◌, ◌++◌, Result, ok, ◌⊎◌, inl, inr,
}
use interbtc_clients_cli.Runtime as Runtime
use interbtc_clients_cli.Vault.Deadline.{Request}
use interbtc_clients_cli.Vault.Payment.{
  Error, TransactionMetadata, Moment, confirmed, Waiting, waits_for, included, failed, step,
  wait_for_inclusion,
}
use interbtc_clients_cli.Vault.Payment.Steps.{Bump, bumped, step-waits, step-included}

module _ (accuracy : ℕ) (to_address : ℕ → Option ℕ) (num_confirmations : ℕ) (auto_rbf : Bool)
    (r : Request) where
  -- The transactions that are waited for in turn: the same one goes on, or a bump replaces it.
  pub data Bumps : ℕ → List Moment → ℕ → Type 0 where
    still : (txid : ℕ) → Bumps txid [] txid
    same :
        (txid last : ℕ) (x : Moment) (xs : List Moment)
        → Bumps txid xs last
        → Bumps txid (x ∷ xs) last
    replaced :
        (txid next last : ℕ) (x : Moment) (xs : List Moment)
        → Bump accuracy to_address num_confirmations auto_rbf r txid x next
        → Bumps next xs last
        → Bumps txid (x ∷ xs) last

  -- The moment of the inclusion: what came before it, and the transaction that is included.
  pub record IsIncluded (txid : ℕ) (moments : List Moment) (m : TransactionMetadata) : Type 0 where
    pub before : List Moment
    pub after : List Moment
    pub metadata : ℕ → ℕ → Result Error TransactionMetadata
    pub relay : ℕ → ℕ → Result Runtime.Error (Unit {0})
    pub last : ℕ
    pub order : moments ≡ before ++ confirmed metadata relay ∷ after
    pub bumps : Bumps txid before last
    pub its_metadata : metadata last num_confirmations ≡ ok m
    pub accepted : relay m.block_hash num_confirmations ≡ ok tt

  IsIncluded-first :
      (txid : ℕ) (moments : List Moment) (m : TransactionMetadata) (x : Moment)
      (metadata : ℕ → ℕ → Result Error TransactionMetadata)
      (relay : ℕ → ℕ → Result Runtime.Error (Unit {0}))
      → x ≡ confirmed metadata relay
      → metadata txid num_confirmations ≡ ok m
      → relay m.block_hash num_confirmations ≡ ok tt
      → IsIncluded txid (x ∷ moments) m
  IsIncluded-first txid moments m x metadata relay e a accepted = record {
    before = [];
    after = moments;
    metadata = metadata;
    relay = relay;
    last = txid;
    order = ap (λ y. y ∷ moments) e;
    bumps = still txid;
    its_metadata = a;
    accepted = accepted;
  }

  IsIncluded-later :
      (txid next : ℕ) (x : Moment) (moments : List Moment) (m : TransactionMetadata)
      → (next ≡ txid) ⊎ Bump accuracy to_address num_confirmations auto_rbf r txid x next
      → IsIncluded next moments m
      → IsIncluded txid (x ∷ moments) m
  IsIncluded-later txid next x moments m how h = record {
    before = x ∷ h.before;
    after = h.after;
    metadata = h.metadata;
    relay = h.relay;
    last = h.last;
    order = ap (λ xs. x ∷ xs) h.order;
    bumps = passed how;
    its_metadata = h.its_metadata;
    accepted = h.accepted;
  }
    where
      passed :
          (next ≡ txid) ⊎ Bump accuracy to_address num_confirmations auto_rbf r txid x next
          → Bumps txid (x ∷ h.before) h.last
      passed (inl e) = same txid h.last x h.before (subst (λ t. Bumps t h.before h.last) e h.bumps)
      passed (inr b) = replaced txid next h.last x h.before b h.bumps

  -- When the wait ends with the metadata of a transaction, then that is what the Bitcoin node
  -- confirmed of it, with the number of confirmations that is asked for, at a moment at which the relay
  -- on the parachain had the block of these metadata with as many confirmations; and the
  -- transaction is the first one or replaces it by bumps of the fee before that moment, each with
  -- auto-rbf on, to a fee above the current one, for a transaction that was in the mempool.
  pub wait_for_inclusion-IsIncluded :
      (moments : List Moment) (txid : ℕ) (m : TransactionMetadata)
      → wait_for_inclusion accuracy to_address num_confirmations auto_rbf r txid moments
        ≡ included m
      → IsIncluded txid moments m
  unfolding wait_for_inclusion
  wait_for_inclusion-IsIncluded [] txid m h = cc
  wait_for_inclusion-IsIncluded (x ∷ moments) txid m h =
      go (step accuracy to_address num_confirmations auto_rbf r txid x) refl
        (λ next. wait_for_inclusion-IsIncluded moments next m) h
    where
      go :
          (w : Waiting)
          → step accuracy to_address num_confirmations auto_rbf r txid x ≡ w
          → ((next : ℕ)
              → wait_for_inclusion accuracy to_address num_confirmations auto_rbf r next moments
                ≡ included m
              → IsIncluded next moments m)
          → elim w [
            | waits_for next ↦
                wait_for_inclusion accuracy to_address num_confirmations auto_rbf r next moments
            | included m' ↦ included m'
            | failed e ↦ failed e
          ]
            ≡ included m
          → IsIncluded txid (x ∷ moments) m
      go (waits_for next) e later k =
          IsIncluded-later txid next x moments m
            (step-waits accuracy to_address num_confirmations auto_rbf r txid next x e)
            (later next k)
      go (included m') e later k =
          let (metadata, relay, is, a, accepted) =
            step-included accuracy to_address num_confirmations auto_rbf r txid x m (e ∙ k) in
          IsIncluded-first txid moments m x metadata relay is a accepted
      go (failed f) e later k = cc

-- With auto-rbf off no transaction is replaced.
Bumps-off :
    (accuracy : ℕ) (to_address : ℕ → Option ℕ) (num_confirmations : ℕ) (r : Request) (txid last : ℕ)
    (xs : List Moment)
    → Bumps accuracy to_address num_confirmations false r txid xs last
    → last ≡ txid
Bumps-off accuracy to_address num_confirmations r txid last _ (still _) = refl
Bumps-off accuracy to_address num_confirmations r txid last _ (same _ _ x xs h) =
    Bumps-off accuracy to_address num_confirmations r txid last xs h
Bumps-off accuracy to_address num_confirmations r txid last _
      (replaced _ next _ _ _ (bumped _ _ _ _ _ _ _ _ _ off _ _ _ _ _ _) h) =
    cc

-- With auto-rbf off, a wait that ends with metadata ends with that of the transaction that it began
-- with.
pub wait_for_inclusion-off :
    (accuracy : ℕ) (to_address : ℕ → Option ℕ) (num_confirmations : ℕ) (r : Request)
    (moments : List Moment) (txid : ℕ) (m : TransactionMetadata)
    → wait_for_inclusion accuracy to_address num_confirmations false r txid moments ≡ included m
    → (before after : List Moment) × (metadata : ℕ → ℕ → Result Error TransactionMetadata)
      × (relay : ℕ → ℕ → Result Runtime.Error (Unit {0})) × (moments
          ≡ before ++ confirmed metadata relay ∷ after)
      × (metadata txid num_confirmations ≡ ok m)
      × (relay m.block_hash num_confirmations ≡ ok tt)
wait_for_inclusion-off accuracy to_address num_confirmations r moments txid m h =
    let i : IsIncluded accuracy to_address num_confirmations false r txid moments m =
      wait_for_inclusion-IsIncluded accuracy to_address num_confirmations false r moments txid m
        h in
    let unchanged : i.last ≡ txid =
      Bumps-off accuracy to_address num_confirmations r txid i.last i.before i.bumps in
    (
      i.before,
      i.after,
      i.metadata,
      i.relay,
      i.order,
      subst (λ t. i.metadata t num_confirmations ≡ ok m) unchanged i.its_metadata,
      i.accepted,
    )
