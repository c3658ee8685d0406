-- ===== src/Journal/Operations/Evolves.antt =====
-- The change of a row, and of the journal, by one operation.
use zswap_offerfiles_kernel.Prelude.{
  ℕ, ◌≤◌, ◌≡◌, ◌⊎◌, inl, refl, sym, ap, ◌∙◌, true, none, if◌then◌else◌, ◌==◌, arith,
}
use zswap_offerfiles_kernel.Prelude.Number.{Number}
use zswap_offerfiles_kernel.Journal.{
  LifecycleState, prepared, applied, awaiting_relay, relay_submitted, confirming, reverting,
  settled, reverted, failed, quarantined, at_least, max_safe_integer, state_index, eq_state,
  is_allowed, is_safe_from,
}
use zswap_offerfiles_kernel.Journal.Store.{Row, Journal, Options, find_row}
use zswap_offerfiles_kernel.Journal.Readable.{IsReadable}
use zswap_offerfiles_kernel.Journal.Rows.{Pairwise}
use zswap_offerfiles_kernel.Journal.Operations.{with_row, pruned}
use zswap_offerfiles_kernel.Journal.Operations.Receipts.{KeepsReceipt, KeepsReceipt-refl}

-- what `normalizeOptions` sees to
pub record AreOptions (options : Options) : Type 0 where
  pub artifact : options.max_artifact_bytes ≤ max_safe_integer
  pub margin : is_safe_from (at_least 1) options.reconciliation_margin_ms ≡ true

abbrev pub MayBecome : LifecycleState → LifecycleState → Type 0
MayBecome a b = (b ≡ a) ⊎ (is_allowed a b ≡ true)

-- A row and what one operation makes of it.
pub record Evolves (r r' : Row) : Type 0 where
  pub id : r.id ≡ r'.id
  pub identity : r'.identity ≡ r.identity
  pub state : MayBecome r.lifecycle_state r'.lifecycle_state
  pub receipt : KeepsReceipt r.receipt r'.receipt
  pub readable : IsReadable r → IsReadable r'

pub Evolves-refl : (r : Row) → Evolves r r
Evolves-refl r = record {
  id = refl;
  identity = refl;
  state = inl refl;
  receipt = KeepsReceipt-refl r.receipt;
  readable = λ h. h;
}

-- a row that `createPrepared` may insert
pub record IsNew (r : Row) (s : Journal) : Type 0 where
  pub id : r.id ≡ s.next_id
  pub key : find_row r.identity.operation_key s.rows ≡ none
  pub state : r.lifecycle_state ≡ prepared
  pub readable : IsReadable r

pub data Effect (s t : Journal) : Type 0 where
  unchanged : t ≡ s → Effect s t
  inserted : (r : Row) → IsNew r s → t ≡ with_row r s → Effect s t
  changed : Pairwise Evolves s.rows t.rows → t.next_id ≡ s.next_id → t.dust ≡ s.dust → Effect s t
  deleted : (now : Number) → t ≡ pruned now s → Effect s t

-- the state with an index
state_at : ℕ → LifecycleState
state_at n =
    if n == 0
    then prepared
    else if n == 1
    then applied
    else if n == 2
    then awaiting_relay
    else if n == 3
    then relay_submitted
    else if n == 4
    then confirming
    else if n == 5
    then reverting
    else if n == 6
    then settled
    else if n == 7
    then reverted
    else if n == 8
    then failed
    else quarantined

state_at-state_index : (a : LifecycleState) → state_at (state_index a) ≡ a
unfolding state_at
state_at-state_index prepared = refl
state_at-state_index applied = refl
state_at-state_index awaiting_relay = refl
state_at-state_index relay_submitted = refl
state_at-state_index confirming = refl
state_at-state_index reverting = refl
state_at-state_index settled = refl
state_at-state_index reverted = refl
state_at-state_index failed = refl
state_at-state_index quarantined = refl

pub eq_state_sound : (a b : LifecycleState) → eq_state a b ≡ true → a ≡ b
eq_state_sound a b h =
    let same : state_index a ≡ state_index b = ground arith in
    sym (state_at-state_index a) ∙ ap state_at same ∙ state_at-state_index b
