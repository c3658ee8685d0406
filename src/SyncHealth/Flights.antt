-- ===== src/SyncHealth/Flights.antt =====
-- One load at a time, and what a settled load leaves.
use zswap_offerfiles_kernel.Prelude.{
  ℕ, ◌≡◌, refl, ap, subst, ◌∙◌, Bool, true, false, Option, none, some, List, [], ◌∷◌, ◌==◌, any_of,
  arith,
}
use zswap_offerfiles_kernel.Prelude.Int.{ℤ, ◌-ℤ◌, ltb_ℤ}
use zswap_offerfiles_kernel.SyncHealth.{
  Flight, from_cache, started, rejected, no_flight, fresh_value, answer, get_value, on_value,
  on_error, on_settled, drop_id, reset,
}

-- What happens to a cache; a reset only when no load is there that is not finished.
pub data Event {V : Type 0} (ttl : ℤ) : Flight V → Flight V → Type 0 where
  gets : (s : Flight V) (now : ℤ) (throws : Bool) → Event ttl s (get_value ttl now throws s).1
  gives :
      (s : Flight V) (id : ℕ) (v : V) (now : ℤ)
      → any_of (λ n. n == id) s.loading ≡ true
      → Event ttl s (on_value id v now s)
  fails :
      (s : Flight V) (id : ℕ) → any_of (λ n. n == id) s.loading ≡ true → Event ttl s (on_error id s)
  ends :
      (s : Flight V) (id : ℕ)
      → any_of (λ n. n == id) s.settling ≡ true
      → Event ttl s (on_settled id s)
  resets :
      (s : Flight V) → s.in_flight ≡ none → s.loading ≡ [] → s.settling ≡ [] → Event ttl s (reset s)

pub data Reach {V : Type 0} (ttl : ℤ) : Flight V → Type 0 where
  here : Reach ttl no_flight
  later : {s t : Flight V} → Reach ttl s → Event ttl s t → Reach ttl t

-- no load is there, or the one in flight
pub data IsSingle {V : Type 0} (s : Flight V) : Type 0 where
  idle : s.in_flight ≡ none → s.loading ≡ [] → s.settling ≡ [] → IsSingle s
  loads : (id : ℕ) → s.in_flight ≡ some id → s.loading ≡ id ∷ [] → s.settling ≡ [] → IsSingle s
  settles : (id : ℕ) → s.in_flight ≡ some id → s.loading ≡ [] → s.settling ≡ id ∷ [] → IsSingle s

answer-IsSingle :
    {V : Type 0} (o : Option V) (flight : Option ℕ) (throws : Bool) (s : Flight V)
    → s.in_flight ≡ flight
    → IsSingle s
    → IsSingle (answer o flight throws s).1
unfolding answer
answer-IsSingle (some v) flight throws s h i = i
answer-IsSingle none (some id) throws s h i = i
answer-IsSingle none none true s h i = i
answer-IsSingle none none false s h (idle f l e) = loads s.next refl (ap (λ ids. s.next ∷ ids) l) e
answer-IsSingle none none false s h (loads id f l e) = cc
answer-IsSingle none none false s h (settles id f l e) = cc

one_id : (id n : ℕ) → any_of (λ m. m == id) (n ∷ []) ≡ true → (n ≡ id) × (drop_id id (n ∷ []) ≡ [])
one_id id n h = let same : n ≡ id = ground arith in (same, ground arith)

none_listed : {C : Type 0} (id : ℕ) (ids : List ℕ) → ids ≡ [] → any_of (λ n. n == id) ids ≡ true → C
none_listed id ids e h =
    let bad : false ≡ true = subst (λ (l : List ℕ). any_of (λ n. n == id) l ≡ true) e h in cc

only_listed :
    (id n : ℕ) (ids : List ℕ)
    → ids ≡ n ∷ []
    → any_of (λ m. m == id) ids ≡ true
    → (n ≡ id) × (drop_id id ids ≡ [])
only_listed id n ids e h =
    let (same, gone) = one_id id n (subst (λ (l : List ℕ). any_of (λ m. m == id) l ≡ true) e h) in
    (same, ap (drop_id id) e ∙ gone)

Event-IsSingle : {V : Type 0} {ttl : ℤ} {s t : Flight V} → Event ttl s t → IsSingle s → IsSingle t
unfolding get_value on_value on_error on_settled reset
Event-IsSingle {ttl} (gets s now throws) i =
    answer-IsSingle (fresh_value ttl now s.cached) s.in_flight throws s refl i
Event-IsSingle (gives s id v now h) (loads n f l e) =
    let (same, gone) = only_listed id n s.loading l h in
    settles id (f ∙ ap some same) gone (ap (λ ids. id ∷ ids) e)
Event-IsSingle (gives s id v now h) (idle f l e) = none_listed id s.loading l h
Event-IsSingle (gives s id v now h) (settles n f l e) = none_listed id s.loading l h
Event-IsSingle (fails s id h) (loads n f l e) =
    let (same, gone) = only_listed id n s.loading l h in
    settles id (f ∙ ap some same) gone (ap (λ ids. id ∷ ids) e)
Event-IsSingle (fails s id h) (idle f l e) = none_listed id s.loading l h
Event-IsSingle (fails s id h) (settles n f l e) = none_listed id s.loading l h
Event-IsSingle (ends s id h) (settles n f l e) = idle refl l (only_listed id n s.settling e h).1
Event-IsSingle (ends s id h) (idle f l e) = none_listed id s.settling e h
Event-IsSingle (ends s id h) (loads n f l e) = none_listed id s.settling e h
Event-IsSingle (resets s f l e) i = idle refl l e

Reach-IsSingle : {V : Type 0} {ttl : ℤ} {s : Flight V} → Reach ttl s → IsSingle s
Reach-IsSingle here = idle refl refl refl
Reach-IsSingle (later r e) = Event-IsSingle e (Reach-IsSingle r)

-- From a new cache, with resets only when every load is finished, whatever the loads do and in whatever
-- order: there is no load that is not finished, or it is the only one and the one in flight, and then
-- a call of `get` starts no other.
pub one_load :
    {V : Type 0} {ttl : ℤ} {s : Flight V}
    → Reach ttl s
    → IsSingle s
      × ((id : ℕ)
          → s.in_flight ≡ some id
          → (now : ℤ) (throws : Bool) → (get_value ttl now throws s).1 ≡ s)
unfolding get_value answer
one_load {V} {ttl} {s} r = (
  Reach-IsSingle r,
  λ id f now throws. stays id s.in_flight f throws (fresh_value ttl now s.cached),
)
  where
    stays :
        (id : ℕ) (flight : Option ℕ)
        → flight ≡ some id
        → (throws : Bool) (o : Option V) → (answer o flight throws s).1 ≡ s
    stays id flight f throws (some v) = refl
    stays id none f throws none = cc
    stays id (some n) f throws none = refl

-- a cache without a load, and a value in it
get_value-idle :
    {V : Type 0} (ttl now at : ℤ) (v : V) (throws : Bool) (s : Flight V)
    → s.cached ≡ some (v, at)
    → s.in_flight ≡ none
    → s.loading ≡ []
    → (ltb_ℤ (now -ℤ at) ttl ≡ true → get_value ttl now throws s ≡ (from_cache v, s))
      × (ltb_ℤ (now -ℤ at) ttl ≡ false
          → ((get_value ttl now true s) ≡ (rejected, s))
            × ((get_value ttl now false s).0 ≡ started s.next)
            × ((get_value ttl now false s).1.loading ≡ s.next ∷ []))
unfolding get_value answer
get_value-idle ttl now at v throws s c f l = (
  λ young. rw (c, young) refl,
  λ old. (rw (c, old, f) refl, rw (c, old, f) refl, rw (c, old, f, l) refl),
)

-- From a new cache, with resets only when every load is finished: a load that gives a value leaves,
-- when it is finished, no load behind and the value in the cache; a call of `get` takes it and changes
-- nothing as long as it is younger than the time to live, and after that a call starts exactly one
-- load, or changes nothing where `load` throws.
pub value_then_get :
    {V : Type 0} {ttl : ℤ} {s : Flight V} (id : ℕ) (v : V) (at now : ℤ) (throws : Bool)
    → Reach ttl s
    → any_of (λ n. n == id) s.loading ≡ true
    → let t = on_settled id (on_value id v at s) in
      (t.in_flight ≡ none)
      × (t.loading ≡ [])
      × (t.settling ≡ [])
      × (ltb_ℤ (now -ℤ at) ttl ≡ true → get_value ttl now throws t ≡ (from_cache v, t))
      × (ltb_ℤ (now -ℤ at) ttl ≡ false
          → ((get_value ttl now true t) ≡ (rejected, t))
            × ((get_value ttl now false t).0 ≡ started t.next)
            × ((get_value ttl now false t).1.loading ≡ t.next ∷ []))
value_then_get {ttl} {s} id v at now throws r h =
    let (empty, gone) = settled (Reach-IsSingle r) in
    let (young, old) =
      get_value-idle ttl now at v throws (on_settled id (on_value id v at s))
        (unfold on_settled on_value in refl) (unfold on_settled in refl) empty in
    (unfold on_settled in refl, empty, gone, young, old)
  where
    settled :
        IsSingle s
        → ((on_settled id (on_value id v at s)).loading ≡ [])
          × ((on_settled id (on_value id v at s)).settling ≡ [])
    settled (loads n f l e) =
        unfold on_settled on_value in
        (
          (only_listed id n s.loading l h).1,
          (only_listed id id (id ∷ s.settling) (ap (λ ids. id ∷ ids) e) (ground arith)).1,
        )
    settled (idle f l e) = none_listed id s.loading l h
    settled (settles n f l e) = none_listed id s.loading l h
