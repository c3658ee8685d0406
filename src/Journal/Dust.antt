-- ===== src/Journal/Dust.antt =====
-- The DUST budget of the journal.
pub mod Budget
pub mod Outcomes
use zswap_offerfiles_kernel.Prelude.{
  ℕ, ◌+◌, ◌-◌, Bool, true, false, not, ◌&&◌, ◌||◌, Option, none, some, List, [], ◌∷◌, ◌++◌,
  if◌then◌else◌, ltb, ◌==◌, length, any_of, keep_if, find_if, Result, ok, err, ◌>>=◌, ◌>>◌,
  throw_if,
}
use zswap_offerfiles_kernel.Prelude.Int.{ℤ, pos, ◌+ℤ◌, ◌-ℤ◌, leb_ℤ, ltb_ℤ, eq_ℤ}
use zswap_offerfiles_kernel.Prelude.Text.{Text, codes, eq_text}
use zswap_offerfiles_kernel.Prelude.Number.{Number, integer, inexact}
use zswap_offerfiles_kernel.Journal.{
  JournalError, type_error, cas_conflict, illegal, constraint, corrupt, Check, at_least, lt_num,
  le_num, require_text, require_safe_integer,
}
use zswap_offerfiles_kernel.Journal.Store.{
  Row, DustState, reserved, spent, released, DustRow, Journal, Options, assert_open, check_clock,
  find_row, eq_num, assert_within_ceilings,
}

pub record DustRequest : Type 0 where
  pub operation_key : Text
  pub job_id : Text
  pub generation : Number
  pub amount : ℤ
  pub max_per_job : ℤ
  pub max_per_window : ℤ
  pub window_ms : Number

-- `DustReservationResult`
pub data DustResult : Type 0 where
  accepted : DustRow → ℤ → DustResult
  over_job over_window : ℤ → DustResult

-- `requirePositiveBigint`
unfoldable pub require_positive : Text → ℤ → Check
require_positive name value = throw_if (leb_ℤ value (pos 0)) (type_error name)

-- `hydrateDust`: the check of a row that is read
unfoldable pub hydrate_dust : DustRow → Check
hydrate_dust d = throw_if (leb_ℤ d.amount (pos 0)) (corrupt (codes "DUST amount"))

-- `Math.max(0, nowMs - windowMs)`
unfoldable pub cutoff : Number → Number → Number
cutoff (integer window) (integer now) =
    if ltb_ℤ (pos 0) (now -ℤ window) then integer (now -ℤ window) else integer (pos 0)
cutoff (integer window) inexact = inexact
cutoff inexact now = inexact

-- the WHERE of `#dustUsage`; a SPENT row has a time (`CHECK ((state = 'SPENT') = (spent_at_ms IS NOT NULL))`)
unfoldable pub spent_after : Number → Option Number → Bool
spent_after limit none = false
spent_after limit (some at) = lt_num limit at

unfoldable pub counts : Number → DustState → Option Number → Bool
unfolding spent_after
counts limit reserved at = true
counts limit spent at = spent_after limit at
counts limit released at = false

unfoldable pub sum_counted : Number → List DustRow → ℤ
unfolding counts
sum_counted limit [] = pos 0
sum_counted limit (d ∷ ds) =
    if counts limit d.state d.spent_at_ms
    then d.amount +ℤ sum_counted limit ds
    else sum_counted limit ds

-- `#dustUsage`
unfoldable pub usage_at : Number → Number → Journal → ℤ
unfolding cutoff sum_counted
usage_at window now s = sum_counted (cutoff window now) s.dust

-- `dustUsage`
unfoldable pub dust_usage : Number → Number → Journal → Result JournalError ℤ
dust_usage window now s = do
  assert_open s
  require_safe_integer (codes "dust windowMs") (at_least 1) window
  require_safe_integer (codes "dust usage clock") (at_least 1) now
  ok (usage_at window now s)

abbrev pub has_dust_key : Text → DustRow → Bool
has_dust_key key d = eq_text d.operation_key key

unfoldable pub find_dust : Text → List DustRow → Option DustRow
find_dust key dust = find_if (has_dust_key key) dust

abbrev pub is_released : DustState → Bool
is_released reserved = false
is_released spent = false
is_released released = true

-- the identity that a replay must repeat
unfoldable pub is_replay : DustRow → DustRequest → Bool
is_replay d r =
    eq_text d.job_id r.job_id
    && (eq_num d.generation r.generation && (eq_ℤ d.amount r.amount && not (is_released d.state)))

-- the row of journal_operations that the reservation needs
unfoldable pub is_settlement_of : DustRequest → Option Row → Bool
is_settlement_of r none = false
is_settlement_of r (some o) =
    eq_text o.identity.job_id r.job_id && eq_num o.identity.generation r.generation

unfoldable pub new_dust : DustRequest → Number → DustRow
new_dust r now = record {
  operation_key = r.operation_key;
  job_id = r.job_id;
  generation = r.generation;
  amount = r.amount;
  state = reserved;
  reserved_at_ms = now;
  spent_at_ms = none;
  updated_at_ms = now;
}

abbrev pub with_dust : DustRow → Journal → Journal
with_dust d s = record s { dust = s.dust ++ d ∷ [] }

-- the SET of the UPDATE in `#transitionDust`
unfoldable pub move_dust : DustState → Number → DustRow → DustRow
move_dust reserved now d = record d { state = reserved; spent_at_ms = none; updated_at_ms = now }
move_dust spent now d = record d { state = spent; spent_at_ms = some now; updated_at_ms = now }
move_dust released now d = record d { state = released; spent_at_ms = none; updated_at_ms = now }

abbrev pub eq_dust_state : DustState → DustState → Bool
eq_dust_state reserved reserved = true
eq_dust_state reserved spent = false
eq_dust_state reserved released = false
eq_dust_state spent reserved = false
eq_dust_state spent spent = true
eq_dust_state spent released = false
eq_dust_state released reserved = false
eq_dust_state released spent = false
eq_dust_state released released = true

-- the WHERE of that UPDATE
unfoldable pub is_held : Text → DustRow → Bool
is_held key d = has_dust_key key d && eq_dust_state d.state reserved

unfoldable pub move_held : Text → DustState → Number → List DustRow → List DustRow
unfolding move_dust is_held
move_held key next now [] = []
move_held key next now (d ∷ ds) =
    (if is_held key d then move_dust next now d else d) ∷ move_held key next now ds

-- `CHECK (updated_at_ms >= reserved_at_ms)`, of the rows that the UPDATE sets
abbrev pub before_reservation : Text → Number → List DustRow → Bool
before_reservation key now dust = any_of (λ d. is_held key d && lt_num now d.reserved_at_ms) dust

-- the transaction of `#transitionDust`, of the row that is there
unfoldable pub transition_held :
    Text → DustState → Number → Journal → DustRow → Result JournalError Journal
unfolding move_held
transition_held key next now s d =
    hydrate_dust d
    >> (if eq_dust_state d.state next
        then ok s
        else if not (eq_dust_state d.state reserved)
        then err (illegal key)
        else if before_reservation key now s.dust
        then err (constraint (codes "updated_at_ms"))
        else ok (record s { dust = move_held key next now s.dust }))

-- `#transitionDust`, and with it `markDustSpent` and `releaseDust`; the row that is read back is
-- found in the journal that is left
unfoldable pub transition_dust : Text → DustState → Number → Journal → Result JournalError Journal
unfolding find_dust transition_held
transition_dust key next now s = do
  assert_open s
  require_text (codes "dust operationKey") 512 key
  check_clock now
  elim (find_dust key s.dust) [ none ↦ ok s | some d ↦ transition_held key next now s d ]

-- the WHERE of the DELETE in `pruneDust`
unfoldable pub is_kept : Number → DustState → Option Number → Bool
is_kept limit reserved at = true
is_kept limit spent none = true
is_kept limit spent (some t) = not (le_num t limit)
is_kept limit released at = false

-- `pruneDust`
unfoldable pub prune_dust : Number → Number → Journal → Result JournalError Journal
unfolding cutoff is_kept
prune_dust window now s = do
  assert_open s
  require_safe_integer (codes "dust windowMs") (at_least 1) window
  require_safe_integer (codes "dust prune clock") (at_least 1) now
  ok (record s { dust = keep_if (λ d. is_kept (cutoff window now) d.state d.spent_at_ms) s.dust })

module _ (options : Options) (bytes_used : Journal → ℕ) where
  -- `reserveDust`, where no row has the key
  unfoldable pub reserve_new :
      DustRequest → Number → Journal → Result JournalError (DustResult × Journal)
  unfolding usage_at is_settlement_of new_dust
  reserve_new r now s =
      if ltb_ℤ r.max_per_job r.amount
      then ok (over_job (usage_at r.window_ms now s), s)
      else if ltb_ℤ r.max_per_window (usage_at r.window_ms now s +ℤ r.amount)
      then ok (over_window (usage_at r.window_ms now s), s)
      else if not (is_settlement_of r (find_row r.operation_key s.rows))
      then err (illegal (codes "settlement row"))
      else assert_within_ceilings options bytes_used (with_dust (new_dust r now) s)
        >> ok (
          accepted (new_dust r now) (usage_at r.window_ms now s +ℤ r.amount),
          with_dust (new_dust r now) s,
        )

  unfoldable pub reserve_found :
      DustRequest → Number → Journal → DustRow → Result JournalError (DustResult × Journal)
  unfolding usage_at is_replay hydrate_dust
  reserve_found r now s d =
      hydrate_dust d
      >> (if not (is_replay d r)
          then err (cas_conflict r.operation_key)
          else ok (accepted d (usage_at r.window_ms now s), s))

  -- `reserveDust`
  unfoldable pub reserve_dust :
      DustRequest → Number → Journal → Result JournalError (DustResult × Journal)
  unfolding reserve_new reserve_found find_dust require_positive
  reserve_dust r now s = do
    assert_open s
    require_text (codes "dust operationKey") 512 r.operation_key
    require_text (codes "dust jobId") 512 r.job_id
    require_safe_integer (codes "dust generation") (at_least 0) r.generation
    require_positive (codes "dust amount") r.amount
    require_positive (codes "dust maxPerJob") r.max_per_job
    require_positive (codes "dust maxPerWindow") r.max_per_window
    require_safe_integer (codes "dust windowMs") (at_least 1) r.window_ms
    check_clock now
    elim (find_dust r.operation_key s.dust) [
      | none ↦ reserve_new r now s
      | some d ↦ reserve_found r now s d
    ]
