-- ===== src/Balance/Rows.antt =====
-- The sorted rows of `rows_of`: what they say of each token, and that each token has one row.
use zswap_offerfiles_kernel.Prelude.{
  ◌≡◌, refl, true, false, ◌||◌, none, some, List, [], ◌∷◌, map, arith, All, if◌then◌else◌, find_if,
  Bool-cases, inl, inr,
}
use zswap_offerfiles_kernel.Prelude.Int.{ℤ, pos}
use zswap_offerfiles_kernel.Prelude.Text.{
  Text, eq_text, eq_text_iff, lt_text, lt_text_irrefl, lt_text_trans, lt_text_total,
}
use zswap_offerfiles_kernel.Prelude.Map.{Dict, lookup, has, Distinct}
use zswap_offerfiles_kernel.Balance.{
  Totals, TokenBalance, current, place, sort_entries, row, rows_of, has_token,
}

-- What the rows hold for a token; nothing where it has no row.
abbrev pub gives_at : Text → List TokenBalance → ℤ
gives_at t rows = elim (find_if (has_token t) rows) [ none ↦ pos 0 | some r ↦ r.gives ]

abbrev pub wants_at : Text → List TokenBalance → ℤ
wants_at t rows = elim (find_if (has_token t) rows) [ none ↦ pos 0 | some r ↦ r.wants ]

abbrev pub net_at : Text → List TokenBalance → ℤ
net_at t rows = elim (find_if (has_token t) rows) [ none ↦ pos 0 | some r ↦ r.net ]

-- every row from here on has a larger token
abbrev pub Above : Text → List TokenBalance → Type 0
Above t = All (λ r. lt_text t r.token ≡ true)

-- Tokens ascend strictly, so no token has two rows.
abbrev pub IsSorted : List TokenBalance → Type 0
IsSorted [] = Unit
IsSorted (r ∷ rs) = Above r.token rs × IsSorted rs

lookup-place :
    (t : Text) (e : Text × Totals) (m : Dict Totals)
    → lookup t (place e m) ≡ (if eq_text e.0 t then some e.1 else lookup t m)
unfolding lookup place
lookup-place t e [] = refl
lookup-place t e (f ∷ m) =
    ground (arith, lookup-place t e m, eq_text_iff e.0 t, eq_text_iff f.0 t, lt_text_irrefl t)

lookup-sort_entries : (t : Text) (m : Dict Totals) → lookup t (sort_entries m) ≡ lookup t m
unfolding sort_entries lookup
lookup-sort_entries t [] = refl
lookup-sort_entries t (e ∷ m) =
    ground (arith, lookup-place t e (sort_entries m), lookup-sort_entries t m)

has-place :
    (t : Text) (e : Text × Totals) (m : Dict Totals)
    → has t (place e m) ≡ (eq_text e.0 t || has t m)
unfolding has place
has-place t e [] = refl
has-place t e (f ∷ m) = ground (arith, has-place t e m)

has-sort_entries : (t : Text) (m : Dict Totals) → has t (sort_entries m) ≡ has t m
unfolding sort_entries has
has-sort_entries t [] = refl
has-sort_entries t (e ∷ m) = ground (arith, has-place t e (sort_entries m), has-sort_entries t m)

Above-map-place :
    (t : Text) (e : Text × Totals) (m : Dict Totals)
    → lt_text t e.0 ≡ true
    → Above t (map row m)
    → Above t (map row (place e m))
unfolding place
Above-map-place t e [] h k = (h, tt)
Above-map-place t e (f ∷ m) h k = ground (arith, Above-map-place t e m h k.1)

Above-trans : (s t : Text) (rs : List TokenBalance) → lt_text s t ≡ true → Above t rs → Above s rs
Above-trans s t [] h k = tt
Above-trans s t (r ∷ rs) h k = (lt_text_trans s t r.token h k.0, Above-trans s t rs h k.1)

IsSorted-map-place :
    (e : Text × Totals) (m : Dict Totals)
    → has e.0 m ≡ false
    → IsSorted (map row m)
    → IsSorted (map row (place e m))
unfolding place has
IsSorted-map-place e [] h s = (tt, tt)
IsSorted-map-place e (f ∷ m) h s = ground (
  arith,
  Above-map-place f.0 e m,
  Above-trans e.0 f.0 (map row m),
  lt_text_total f.0 e.0,
  IsSorted-map-place e m,
)

IsSorted-map-sort_entries : (m : Dict Totals) → Distinct m → IsSorted (map row (sort_entries m))
unfolding sort_entries
IsSorted-map-sort_entries [] h = tt
IsSorted-map-sort_entries (e ∷ m) h = ground (
  arith,
  IsSorted-map-place e (sort_entries m),
  IsSorted-map-sort_entries m h.1,
  has-sort_entries e.0 m,
)

-- Of a map's entries the sorted rows hold each token once.
pub rows_of-IsSorted : (m : Dict Totals) → Distinct m → IsSorted (rows_of m)
unfolding rows_of
rows_of-IsSorted m h = IsSorted-map-sort_entries m h

find_if-map-row :
    (t : Text) (m : Dict Totals)
    → find_if (has_token t) (map row m)
      ≡ (elim (lookup t m) [ none ↦ none | some v ↦ some (row (t, v)) ])
unfolding lookup
find_if-map-row t [] = refl
find_if-map-row t (e ∷ m) = elim (Bool-cases (eq_text e.0 t)) [
  | inl same ↦ rw (same, (eq_text_iff e.0 t).0 same) refl
  | inr other ↦ rw other (find_if-map-row t m)
]

-- The row of a token is the entry of the map.
pub find_if-rows_of :
    (t : Text) (m : Dict Totals)
    → find_if (has_token t) (rows_of m)
      ≡ (elim (lookup t m) [ none ↦ none | some v ↦ some (row (t, v)) ])
unfolding rows_of
find_if-rows_of t m = rw (find_if-map-row t (sort_entries m), lookup-sort_entries t m) refl

pub gives_at-rows_of : (t : Text) (m : Dict Totals) → gives_at t (rows_of m) ≡ (current t m).gives
unfolding current
gives_at-rows_of t m = ground (arith, find_if-rows_of t m)

pub wants_at-rows_of : (t : Text) (m : Dict Totals) → wants_at t (rows_of m) ≡ (current t m).wants
unfolding current
wants_at-rows_of t m = ground (arith, find_if-rows_of t m)
