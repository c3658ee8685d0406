-- ===== src/Balance/Accounting.antt =====
-- accountWholeOfferBalances: the sums that it takes, and when it throws.
use zswap_offerfiles_kernel.Prelude.{
  ◌≡◌, refl, true, List, [], ◌∷◌, arith, All, if◌then◌else◌, ok, ◌↔◌, >>=-eq-ok,
}
use zswap_offerfiles_kernel.Prelude.Int.{ℤ, pos, ◌+ℤ◌, ◌≤ℤ◌, +ℤ_zero, +ℤ_assoc, zero_+ℤ}
use zswap_offerfiles_kernel.Prelude.Text.{Text, eq_text, eq_text_iff, to_lower, is_hex64}
use zswap_offerfiles_kernel.Prelude.Map.{
  Dict, lookup, insert, Distinct, lookup-insert, insert-Distinct,
}
use zswap_offerfiles_kernel.Balance.{
  Side, on_gives, on_wants, Leg, Source, Totals, TokenBalance, current, bump, canonical_token,
  add_leg, add_legs, add_sources, account, rows_of,
}
use zswap_offerfiles_kernel.Balance.Rows.{
  gives_at, wants_at, IsSorted, gives_at-rows_of, wants_at-rows_of, rows_of-IsSorted,
}

-- The amounts of the legs in a token, whatever the case of its hex digits.
pub sum_legs : Text → List Leg → ℤ
sum_legs t [] = pos 0
sum_legs t (l ∷ ls) =
    if eq_text (to_lower l.token) t then l.amount +ℤ sum_legs t ls else sum_legs t ls

pub gives_total : Text → List Source → ℤ
gives_total t [] = pos 0
gives_total t (s ∷ ss) = sum_legs t s.gives +ℤ gives_total t ss

pub wants_total : Text → List Source → ℤ
wants_total t [] = pos 0
wants_total t (s ∷ ss) = sum_legs t s.wants +ℤ wants_total t ss

-- A leg that names a token and moves something.
abbrev pub IsLeg : Leg → Type 0
IsLeg l = (is_hex64 l.token ≡ true) × (pos 1 ≤ℤ l.amount)

abbrev pub IsSource : Source → Type 0
IsSource s = All IsLeg s.gives × All IsLeg s.wants

pub current-insert :
    (k t : Text) (v : Totals) (m : Dict Totals)
    → current t (insert k v m) ≡ (if eq_text k t then v else current t m)
unfolding current
current-insert k t v m = ground (arith, lookup-insert k t v m)

-- the leg is added to its own token and to its own side
abbrev added : Side → Text → Leg → Totals → Totals
added side t l v = if eq_text (to_lower l.token) t then bump side l.amount v else v

add_leg_ok :
    (side : Side) (m m' : Dict Totals) (l : Leg) (t : Text)
    → add_leg side m l ≡ ok m'
    → current t m' ≡ added side t l (current t m)
unfolding add_leg canonical_token
add_leg_ok side m m' l t h = ground (
  arith,
  current-insert (to_lower l.token) t (bump side l.amount (current (to_lower l.token) m)) m,
  eq_text_iff (to_lower l.token) t,
)

add_leg-Distinct :
    (side : Side) (m m' : Dict Totals) (l : Leg)
    → add_leg side m l ≡ ok m'
    → Distinct m
    → Distinct m'
unfolding add_leg canonical_token
add_leg-Distinct side m m' l h d = ground (
  arith,
  insert-Distinct (to_lower l.token) (bump side l.amount (current (to_lower l.token) m)) m,
)

add_legs-Distinct :
    (side : Side) (ls : List Leg) (m m' : Dict Totals)
    → add_legs side ls m ≡ ok m'
    → Distinct m
    → Distinct m'
unfolding add_legs
add_legs-Distinct side [] m m' h d = ground arith
add_legs-Distinct side (l ∷ ls) m m' h d =
    let (m1, e, k) = >>=-eq-ok (add_leg side m l) _ h in
    add_legs-Distinct side ls m1 m' k (add_leg-Distinct side m m1 l e d)

bump_zero : (side : Side) (v : Totals) → bump side (pos 0) v ≡ v
bump_zero on_gives v = ground (arith, +ℤ_zero v.gives)
bump_zero on_wants v = ground (arith, +ℤ_zero v.wants)

bump-bump :
    (side : Side) (a b : ℤ) (v : Totals) → bump side b (bump side a v) ≡ bump side (a +ℤ b) v
bump-bump on_gives a b v = ground (arith, +ℤ_assoc v.gives a b)
bump-bump on_wants a b v = ground (arith, +ℤ_assoc v.wants a b)

add_legs_ok :
    (side : Side) (ls : List Leg) (m m' : Dict Totals) (t : Text)
    → add_legs side ls m ≡ ok m'
    → current t m' ≡ bump side (sum_legs t ls) (current t m)
unfolding add_legs sum_legs
add_legs_ok side [] m m' t h = ground (arith, bump_zero side (current t m))
add_legs_ok side (l ∷ ls) m m' t h =
    let (m1, e, k) = >>=-eq-ok (add_leg side m l) _ h in
    ground (
      arith,
      add_legs_ok side ls m1 m' t k,
      add_leg_ok side m m1 l t e,
      bump-bump side l.amount (sum_legs t ls) (current t m),
    )

abbrev plus : ℤ → ℤ → Totals → Totals
plus g w v = record { gives = v.gives +ℤ g; wants = v.wants +ℤ w }

plus-plus : (g w g' w' : ℤ) (v : Totals) → plus g' w' (plus g w v) ≡ plus (g +ℤ g') (w +ℤ w') v
plus-plus g w g' w' v = ground (arith, +ℤ_assoc v.gives g g', +ℤ_assoc v.wants w w')

module _ (s : Source) (ss : List Source) (m m' : Dict Totals)
    (h : add_sources (s ∷ ss) m ≡ ok m') where
  -- the two maps between
  pub add_sources_steps :
      (a b : Dict Totals) × (add_legs on_gives s.gives m ≡ ok a)
      × (add_legs on_wants s.wants a ≡ ok b)
      × (add_sources ss b ≡ ok m')
  unfolding add_sources
  add_sources_steps =
      let (a, e, k) = >>=-eq-ok (add_legs on_gives s.gives m) _ h in
      let (b, f, l) = >>=-eq-ok (add_legs on_wants s.wants a) _ k in (a, b, e, f, l)

add_sources_ok :
    (ss : List Source) (m m' : Dict Totals) (t : Text)
    → add_sources ss m ≡ ok m'
    → current t m' ≡ plus (gives_total t ss) (wants_total t ss) (current t m)
unfolding gives_total wants_total
add_sources_ok [] m m' t h =
    unfold add_sources in ground (arith, +ℤ_zero (current t m).gives, +ℤ_zero (current t m).wants)
add_sources_ok (s ∷ ss) m m' t h =
    let (a, b, e, f, l) = add_sources_steps s ss m m' h in
    ground (
      arith,
      add_legs_ok on_gives s.gives m a t e,
      add_legs_ok on_wants s.wants a b t f,
      add_sources_ok ss b m' t l,
      plus-plus (sum_legs t s.gives) (sum_legs t s.wants) (gives_total t ss) (wants_total t ss)
          (current t m),
    )

pub add_sources-Distinct :
    (ss : List Source) (m m' : Dict Totals) → add_sources ss m ≡ ok m' → Distinct m → Distinct m'
add_sources-Distinct [] m m' h d = unfold add_sources in ground arith
add_sources-Distinct (s ∷ ss) m m' h d =
    let (a, b, e, f, l) = add_sources_steps s ss m m' h in
    add_sources-Distinct ss b m' l
      (add_legs-Distinct on_wants s.wants a b f (add_legs-Distinct on_gives s.gives m a e d))

pub add_leg_valid :
    (side : Side) (m m' : Dict Totals) (l : Leg) → add_leg side m l ≡ ok m' → IsLeg l
unfolding add_leg canonical_token
add_leg_valid side m m' l h = ground arith

add_leg_total :
    (side : Side) (m : Dict Totals) (l : Leg)
    → IsLeg l
    → (m' : Dict Totals) × (add_leg side m l ≡ ok m')
unfolding add_leg canonical_token
add_leg_total side m l h =
    (insert (to_lower l.token) (bump side l.amount (current (to_lower l.token) m)) m, ground arith)

add_legs_valid :
    (side : Side) (ls : List Leg) (m m' : Dict Totals) → add_legs side ls m ≡ ok m' → All IsLeg ls
unfolding add_legs
add_legs_valid side [] m m' h = tt
add_legs_valid side (l ∷ ls) m m' h =
    let (m1, e, k) = >>=-eq-ok (add_leg side m l) _ h in
    (add_leg_valid side m m1 l e, add_legs_valid side ls m1 m' k)

add_legs_total :
    (side : Side) (ls : List Leg) (m : Dict Totals)
    → All IsLeg ls
    → (m' : Dict Totals) × (add_legs side ls m ≡ ok m')
unfolding add_legs
add_legs_total side [] m h = (m, refl)
add_legs_total side (l ∷ ls) m h =
    let (m1, e) = add_leg_total side m l h.0 in
    let (m', k) = add_legs_total side ls m1 h.1 in (m', rw e k)

add_sources_valid :
    (ss : List Source) (m m' : Dict Totals) → add_sources ss m ≡ ok m' → All IsSource ss
add_sources_valid [] m m' h = tt
add_sources_valid (s ∷ ss) m m' h =
    let (a, b, e, f, l) = add_sources_steps s ss m m' h in
    (
      (add_legs_valid on_gives s.gives m a e, add_legs_valid on_wants s.wants a b f),
      add_sources_valid ss b m' l,
    )

add_sources_total :
    (ss : List Source) (m : Dict Totals)
    → All IsSource ss
    → (m' : Dict Totals) × (add_sources ss m ≡ ok m')
unfolding add_sources
add_sources_total [] m h = (m, refl)
add_sources_total (s ∷ ss) m h =
    let (a, e) = add_legs_total on_gives s.gives m h.0.0 in
    let (b, f) = add_legs_total on_wants s.wants a h.0.1 in
    let (m', k) = add_sources_total ss b h.1 in (m', rw (e, f) k)

account_valid :
    (sources : List Source) (rows : List TokenBalance)
    → account sources ≡ ok rows
    → All IsSource sources
unfolding account
account_valid sources rows h =
    let (m, e, k) = >>=-eq-ok (add_sources sources []) _ h in add_sources_valid sources [] m e

account_total :
    (sources : List Source)
    → All IsSource sources
    → (rows : List TokenBalance) × (account sources ≡ ok rows)
unfolding account
account_total sources h = let (m, e) = add_sources_total sources [] h in (rows_of m, rw e refl)

module _ (sources : List Source) (m : Dict Totals) (e : add_sources sources [] ≡ ok m) where
  account_gives : (t : Text) → gives_at t (rows_of m) ≡ gives_total t sources
  unfolding current lookup
  account_gives t = rw (gives_at-rows_of, add_sources_ok sources [] m t e) (zero_+ℤ _)

  account_wants : (t : Text) → wants_at t (rows_of m) ≡ wants_total t sources
  unfolding current lookup
  account_wants t = rw (wants_at-rows_of, add_sources_ok sources [] m t e) (zero_+ℤ _)

-- The accounting of some sources succeeds exactly if every leg names a token of 64 hex digits and
-- has a positive amount.
pub account_accepts :
    (sources : List Source)
    → ((rows : List TokenBalance) × (account sources ≡ ok rows)) ↔ All IsSource sources
account_accepts sources = (λ r. account_valid sources r.0 r.1, account_total sources)

-- Where the accounting of some sources succeeds, its rows are strictly ascending in their tokens,
-- and for every token they hold the sum of what the sources give and of what they want in it.
pub account_sums :
    (sources : List Source) (rows : List TokenBalance)
    → account sources ≡ ok rows
    → IsSorted rows
      × ((t : Text)
          → (gives_at t rows ≡ gives_total t sources) × (wants_at t rows ≡ wants_total t sources))
unfolding account
account_sums sources rows h =
    let (m, e, k) = >>=-eq-ok (add_sources sources []) _ h in
    let same : rows_of m ≡ rows = cc in
    rw (← same) (
      rows_of-IsSorted m (add_sources-Distinct sources [] m e tt),
      λ t. (account_gives sources m e t, account_wants sources m e t),
    )
