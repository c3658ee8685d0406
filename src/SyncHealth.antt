-- ===== src/SyncHealth.antt =====
-- The verdict on the node's progress, and the cache with one load at a time: packages/node/sync-health.ts.
pub mod Verdict
pub mod Flights
mod Tests
use zswap_offerfiles_kernel.Prelude.{
  ℕ, ◌+◌, Bool, true, false, not, ◌&&◌, ◌||◌, Option, none, some, List, [], ◌∷◌, if◌then◌else◌,
  ◌==◌, all_of, keep_if,
}
use zswap_offerfiles_kernel.Prelude.Int.{ℤ, pos, ◌-ℤ◌, ◌*ℤ◌, ltb_ℤ, leb_ℤ}

-- A `number`, by what `Number.isFinite` says of it; the finite ones that come here are integers.
pub data Reading : Type 0 where
  finite : ℤ → Reading
  not_finite : Reading

-- `ReadinessInput`; the lag in seconds is counted in thousandths, and `none` is `null`
pub record ReadinessInput : Type 0 where
  pub ntp_current : Reading
  pub ntp_lag_thousandths : Reading
  pub ntp_block_ms : Reading
  pub midnight_current : Option Reading
  pub midnight_tip : Option Reading
  pub celestia_current : Option Reading
  pub celestia_tip : Option Reading

pub data SyncStatus : Type 0 where
  in_sync syncing error : SyncStatus

abbrev pub max_midnight_lag_blocks : ℤ
max_midnight_lag_blocks = pos 12

abbrev pub max_celestia_lag_blocks : ℤ
max_celestia_lag_blocks = pos 4

-- `!Number.isFinite(n) || n <= 0`
abbrev pub is_not_positive : Reading → Bool
is_not_positive (finite n) = leb_ℤ n (pos 0)
is_not_positive not_finite = true

-- `!Number.isFinite(n) || n < 0`
abbrev pub is_not_natural : Reading → Bool
is_not_natural (finite n) = ltb_ℤ n (pos 0)
is_not_natural not_finite = true

-- a height that is known, finite and not negative
abbrev pub known : Option Reading → Option ℤ
known none = none
known (some not_finite) = none
known (some (finite n)) = if ltb_ℤ n (pos 0) then none else some n

-- `tip - current > max`, or a position that is not known
abbrev pub is_behind : ℤ → Option ℤ → Option ℤ → Bool
is_behind max none tip = true
is_behind max (some current) none = true
is_behind max (some current) (some tip) = ltb_ℤ max (tip -ℤ current)

-- `ntpLagSeconds > ntpBlockMs * 2 / 1000`
abbrev pub is_late : Reading → Reading → Bool
is_late (finite lag) (finite block) = ltb_ℤ (block *ℤ pos 2) lag
is_late (finite lag) not_finite = false
is_late not_finite block = false

-- `deriveSyncStatus`
unfoldable pub derive_sync_status : ReadinessInput → SyncStatus
derive_sync_status i =
    if is_not_positive i.ntp_current
      || (is_not_positive i.ntp_block_ms || is_not_natural i.ntp_lag_thousandths)
    then error
    else if is_late i.ntp_lag_thousandths i.ntp_block_ms
    then syncing
    else if is_behind max_midnight_lag_blocks (known i.midnight_current) (known i.midnight_tip)
    then syncing
    else if is_behind max_celestia_lag_blocks (known i.celestia_current) (known i.celestia_tip)
    then syncing
    else in_sync

-- `createSingleFlightCache`: `cached`, `inFlight`, and the promises of `load` by their number, those
-- that are not settled and those whose `finally` is to run.
pub record Flight (V : Type 0) : Type 0 where
  pub cached : Option (V × ℤ)
  pub in_flight : Option ℕ
  pub loading : List ℕ
  pub settling : List ℕ
  pub next : ℕ

pub data Answer (V : Type 0) : Type 0 where
  from_cache : V → Answer V
  joined started : ℕ → Answer V
  rejected : Answer V

abbrev pub drop_id : ℕ → List ℕ → List ℕ
drop_id id ids = keep_if (λ n. not (n == id)) ids

module _ {V : Type 0} where
  abbrev pub no_flight : Flight V
  no_flight = record { cached = none; in_flight = none; loading = []; settling = []; next = 0 }

  -- `current - cached.fetchedAt < ttlMs`
  abbrev pub fresh_value : ℤ → ℤ → Option (V × ℤ) → Option V
  fresh_value ttl now none = none
  fresh_value ttl now (some (v, at)) = if ltb_ℤ (now -ℤ at) ttl then some v else none

  -- `get`, behind the two tests; `throws` is that `load` throws before it gives a promise
  unfoldable pub answer : Option V → Option ℕ → Bool → Flight V → Answer V × Flight V
  answer (some v) flight throws s = (from_cache v, s)
  answer none (some id) throws s = (joined id, s)
  answer none none true s = (rejected, s)
  answer none none false s = (
    started s.next,
    record s { in_flight = some s.next; loading = s.next ∷ s.loading; next = s.next + 1 },
  )

  -- `get`
  unfoldable pub get_value : ℤ → ℤ → Bool → Flight V → Answer V × Flight V
  unfolding answer
  get_value ttl now throws s = answer (fresh_value ttl now s.cached) s.in_flight throws s

  -- the `then` of a load that gives a value
  unfoldable pub on_value : ℕ → V → ℤ → Flight V → Flight V
  on_value id v now s = record s {
    cached = some (v, now);
    loading = drop_id id s.loading;
    settling = id ∷ s.settling;
  }

  -- a load that is rejected passes its `then` by
  unfoldable pub on_error : ℕ → Flight V → Flight V
  on_error id s = record s { loading = drop_id id s.loading; settling = id ∷ s.settling }

  -- the `finally` of a load
  unfoldable pub on_settled : ℕ → Flight V → Flight V
  on_settled id s = record s { in_flight = none; settling = drop_id id s.settling }

  -- `reset`
  unfoldable pub reset : Flight V → Flight V
  reset s = record s { cached = none; in_flight = none }
