-- ===== src/SyncHealth/Tests.antt =====
-- A cache with a load, two callers, and a reset; and a node that is in sync.
use zswap_offerfiles_kernel.Prelude.{ℕ, ◌≡◌, refl, Bool, true, false, none, some, [], ◌∷◌}
use zswap_offerfiles_kernel.Prelude.Int.{ℤ, pos, ◌-ℤ◌, ◌*ℤ◌, ltb_ℤ}
use zswap_offerfiles_kernel.SyncHealth.{
  finite, ReadinessInput, in_sync, derive_sync_status, Flight, from_cache, joined, started,
  rejected, no_flight, answer, get_value, on_value, on_error, on_settled, reset,
}
use zswap_offerfiles_kernel.SyncHealth.Verdict.{IsNear, IsCurrent, derive_sync_status-IsNear}
use zswap_offerfiles_kernel.SyncHealth.Flights.{
  Reach, here, later, gets, IsSingle, one_load, value_then_get,
}

abbrev loading_flight : Flight ℕ
loading_flight = record {
  cached = none;
  in_flight = some 0;
  loading = 0 ∷ [];
  settling = [];
  next = 1;
}

get_value-no_flight :
    get_value {V = ℕ} (pos 5000) (pos 100) false no_flight ≡ (started 0, loading_flight)
unfolding get_value answer
get_value-no_flight = refl

get_value-loading_flight :
    (get_value {V = ℕ} (pos 5000) (pos 101) false loading_flight).0 ≡ joined 0
unfolding get_value answer
get_value-loading_flight = refl

-- A reset forgets the load in flight; the end of that load then forgets the one that followed it, and
-- a third call starts a second load beside it.
abbrev after_reset : Flight ℕ
after_reset =
    on_settled 0 (on_error 0 (get_value (pos 5000) (pos 102) false (reset loading_flight)).1)

get_value-after_reset :
    (get_value {V = ℕ} (pos 5000) (pos 103) false after_reset).1.loading ≡ 2 ∷ 1 ∷ []
unfolding get_value answer on_settled on_error reset
get_value-after_reset = refl

reached : Reach (pos 5000) loading_flight
unfolding get_value answer
reached = later here (gets no_flight (pos 100) false)

one_load_example :
    IsSingle loading_flight
    × ((id : ℕ)
        → loading_flight.in_flight ≡ some id
        → (now : ℤ) (throws : Bool)
        → (get_value (pos 5000) now throws loading_flight).1 ≡ loading_flight)
one_load_example = one_load reached

abbrev answered : Flight ℕ
answered = on_settled 0 (on_value 0 7 (pos 200) loading_flight)

value_then_get_example :
    (answered.in_flight ≡ none)
    × (answered.loading ≡ [])
    × (answered.settling ≡ [])
    × (ltb_ℤ (pos 300 -ℤ pos 200) (pos 5000) ≡ true
        → get_value (pos 5000) (pos 300) false answered ≡ (from_cache 7, answered))
    × (ltb_ℤ (pos 300 -ℤ pos 200) (pos 5000) ≡ false
        → ((get_value (pos 5000) (pos 300) true answered) ≡ (rejected, answered))
          × ((get_value (pos 5000) (pos 300) false answered).0 ≡ started answered.next)
          × ((get_value (pos 5000) (pos 300) false answered).1.loading ≡ answered.next ∷ []))
value_then_get_example = value_then_get 0 7 (pos 200) (pos 300) false reached refl

abbrev at_tip : ReadinessInput
at_tip = record {
  ntp_current = finite (pos 1000);
  ntp_lag_thousandths = finite (pos 1500);
  ntp_block_ms = finite (pos 1000);
  midnight_current = some (finite (pos 90));
  midnight_tip = some (finite (pos 102));
  celestia_current = some (finite (pos 50));
  celestia_tip = some (finite (pos 52));
}

derive_sync_status-at_tip : derive_sync_status at_tip ≡ in_sync
unfolding derive_sync_status ◌-ℤ◌ ◌*ℤ◌
derive_sync_status-at_tip = refl

derive_sync_status-IsNear_example :
    IsNear (pos 12) at_tip.midnight_current at_tip.midnight_tip
    × IsNear (pos 4) at_tip.celestia_current at_tip.celestia_tip
    × IsCurrent at_tip
derive_sync_status-IsNear_example = derive_sync_status-IsNear at_tip derive_sync_status-at_tip
