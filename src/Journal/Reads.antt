-- ===== src/Journal/Reads.antt =====
-- What the journal lists and counts: packages/solver/src/operation-journal.ts.
use zswap_offerfiles_kernel.Prelude.{
  ℕ, suc, ◌+◌, ◌≡◌, ◌≢◌, refl, subst, true, false, Bool-cases, inl, inr, List, [], ◌∷◌, map, length,
  keep_if, All, arith, Result, ok, ◌>>◌,
}
use zswap_offerfiles_kernel.Journal.{
  LifecycleState, prepared, applied, awaiting_relay, relay_submitted, confirming, reverting,
  settled, reverted, failed, quarantined, JournalError, Check, eq_state,
}
use zswap_offerfiles_kernel.Journal.Store.{Row, Journal, assert_open, hydrate}
use zswap_offerfiles_kernel.Journal.Operations.Evolves.{eq_state_sound}

unfoldable pub hydrate_each : List Row → Check
hydrate_each [] = ok tt
hydrate_each (r ∷ rs) = hydrate r >> hydrate_each rs

-- `list`
unfoldable pub list_operations : Journal → Result JournalError (List Row)
unfolding hydrate_each
list_operations s = assert_open s >> (hydrate_each s.rows >> ok s.rows)

-- `LIFECYCLE_STATES`
abbrev pub lifecycle_states : List LifecycleState
lifecycle_states =
    prepared ∷ applied ∷ awaiting_relay ∷ relay_submitted ∷ confirming ∷ reverting ∷ settled
    ∷ reverted ∷ failed ∷ quarantined ∷ []

-- `count(*)` of a group
abbrev pub count_in : LifecycleState → List Row → ℕ
count_in state rows = length (keep_if (λ r. eq_state r.lifecycle_state state) rows)

unfoldable pub counts_of : List LifecycleState → List Row → List (LifecycleState × ℕ)
counts_of [] rows = []
counts_of (state ∷ states) rows = (state, count_in state rows) ∷ counts_of states rows

-- `countsByState`
unfoldable pub counts_by_state : Journal → Result JournalError (List (LifecycleState × ℕ))
unfolding counts_of
counts_by_state s = assert_open s >> ok (counts_of lifecycle_states s.rows)

abbrev pub total : List (LifecycleState × ℕ) → ℕ
total [] = 0
total ((state, n) ∷ counts) = n + total counts

abbrev hits : LifecycleState → List LifecycleState → ℕ
hits a states = length (keep_if (eq_state a) states)

total-counts_of-cons :
    (states : List LifecycleState) (r : Row) (rs : List Row)
    → total (counts_of states (r ∷ rs))
      ≡ hits r.lifecycle_state states + total (counts_of states rs)
unfolding counts_of
total-counts_of-cons [] r rs = refl
total-counts_of-cons (s ∷ states) r rs = ground (arith, total-counts_of-cons states r rs)

-- a state is in the list once
hits_once : (a : LifecycleState) → hits a lifecycle_states ≡ 1
hits_once prepared = refl
hits_once applied = refl
hits_once awaiting_relay = refl
hits_once relay_submitted = refl
hits_once confirming = refl
hits_once reverting = refl
hits_once settled = refl
hits_once reverted = refl
hits_once failed = refl
hits_once quarantined = refl

total-none : (states : List LifecycleState) → total (counts_of states []) ≡ 0
unfolding counts_of
total-none [] = refl
total-none (s ∷ states) = omega (arith, total-none states)

total-rows : (rows : List Row) → total (counts_of lifecycle_states rows) ≡ length rows
total-rows [] = total-none lifecycle_states
total-rows (r ∷ rs) =
    omega (
      arith,
      total-counts_of-cons lifecycle_states r rs,
      hits_once r.lifecycle_state,
      total-rows rs,
    )

-- as many rows as the number stand in the state
pub data Counted (a : LifecycleState) : List Row → ℕ → Type 0 where
  nothing : Counted a [] 0
  hit :
      {r : Row} {rs : List Row} {n : ℕ}
      → r.lifecycle_state ≡ a
      → Counted a rs n
      → Counted a (r ∷ rs) (suc n)
  miss :
      {r : Row} {rs : List Row} {n : ℕ}
      → r.lifecycle_state ≢ a
      → Counted a rs n
      → Counted a (r ∷ rs) n

eq_state_self : (a : LifecycleState) → eq_state a a ≡ true
eq_state_self a = ground arith

count_in-Counted : (a : LifecycleState) (rows : List Row) → Counted a rows (count_in a rows)
count_in-Counted a [] = nothing
count_in-Counted a (r ∷ rs) = elim (Bool-cases (eq_state r.lifecycle_state a)) [
  | inl e ↦ rw e (hit (eq_state_sound r.lifecycle_state a e) (count_in-Counted a rs))
  | inr e ↦ rw e (miss (λ same. differs e same) (count_in-Counted a rs))
]
  where
    differs : eq_state r.lifecycle_state a ≡ false → r.lifecycle_state ≢ a
    differs e same =
        let bad : eq_state a a ≡ false = subst (λ b. eq_state b a ≡ false) same e in
        let good = eq_state_self a in cc

counts_of-Counted :
    (states : List LifecycleState) (rows : List Row)
    → All (λ c. Counted c.0 rows c.1) (counts_of states rows)
unfolding counts_of
counts_of-Counted [] rows = tt
counts_of-Counted (a ∷ states) rows = (count_in-Counted a rows, counts_of-Counted states rows)

-- `countsByState` of an open journal gives each state once, in the order of the states, with the
-- number of the rows that stand in it, and its counts add up to the number of rows.
pub counts_by_state-total :
    (s : Journal)
    → s.is_closed ≡ false
    → (counts : List (LifecycleState × ℕ)) × (counts_by_state s ≡ ok counts)
      × (map (λ c. c.0) counts ≡ lifecycle_states)
      × All (λ c. Counted c.0 s.rows c.1) counts
      × (total counts ≡ length s.rows)
unfolding counts_by_state assert_open counts_of
counts_by_state-total s h = (
  counts_of lifecycle_states s.rows,
  rw h refl,
  refl,
  counts_of-Counted lifecycle_states s.rows,
  total-rows s.rows,
)
