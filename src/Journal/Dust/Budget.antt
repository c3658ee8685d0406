-- ===== src/Journal/Dust/Budget.antt =====
-- What the operations do to the DUST that counts against the budget.
use zswap_offerfiles_kernel.Prelude.{
  ◌≡◌, inl, inr, refl, Bool, true, Option, none, some, List, [], ◌∷◌, ◌++◌, if◌then◌else◌, keep_if,
  All, arith, Bool-cases,
}
use zswap_offerfiles_kernel.Prelude.Int.{
  ℤ, pos, ◌+ℤ◌, ◌-ℤ◌, ◌≤ℤ◌, ltb_ℤ, int_laws, +ℤ_parts, -ℤ_parts,
}
use zswap_offerfiles_kernel.Prelude.Text.{Text}
use zswap_offerfiles_kernel.Prelude.Number.{Number, integer, inexact}
use zswap_offerfiles_kernel.Journal.Store.{DustState, reserved, spent, released, DustRow, Journal}
use zswap_offerfiles_kernel.Journal.Dust.{
  DustRequest, cutoff, spent_after, counts, sum_counted, usage_at, new_dust, move_dust,
  eq_dust_state, is_held, move_held,
}

abbrev pub IsPositive : DustRow → Type 0
IsPositive d = pos 1 ≤ℤ d.amount

pub sum_counted_nonneg :
    (limit : Number) (ds : List DustRow) → All IsPositive ds → pos 0 ≤ℤ sum_counted limit ds
unfolding sum_counted
sum_counted_nonneg limit [] a = omega arith
sum_counted_nonneg limit (d ∷ ds) a =
    ground (arith, sum_counted_nonneg limit ds a.1, +ℤ_parts d.amount (sum_counted limit ds))

counts_mono :
    (k l : ℤ) (state : DustState) (at : Option Number)
    → k ≤ℤ l
    → counts (integer l) state at ≡ true
    → counts (integer k) state at ≡ true
unfolding counts spent_after
counts_mono k l reserved at h c = refl
counts_mono k l spent none h c = c
counts_mono k l spent (some (integer t)) h c = ground arith
counts_mono k l spent (some inexact) h c = c
counts_mono k l released at h c = c

sum_counted_mono :
    (k l : ℤ) (ds : List DustRow)
    → k ≤ℤ l
    → All IsPositive ds
    → sum_counted (integer l) ds ≤ℤ sum_counted (integer k) ds
unfolding sum_counted
sum_counted_mono k l [] h a = omega arith
sum_counted_mono k l (d ∷ ds) h a = ground (
  arith,
  sum_counted_mono k l ds h a.1,
  counts_mono k l d.state d.spent_at_ms h,
  +ℤ_parts d.amount (sum_counted (integer l) ds),
  +ℤ_parts d.amount (sum_counted (integer k) ds),
)

-- As time goes on, no more counts.
pub usage_at_later :
    (window m n : ℤ) (s : Journal)
    → m ≤ℤ n
    → All IsPositive s.dust
    → usage_at (integer window) (integer n) s ≤ℤ usage_at (integer window) (integer m) s
unfolding usage_at cutoff
usage_at_later window m n s h a = elim (Bool-cases (ltb_ℤ (pos 0) (n -ℤ window))) [
  | inl p ↦ elim (Bool-cases (ltb_ℤ (pos 0) (m -ℤ window))) [
    | inl q ↦ rw (p, q) (sum_counted_mono (m -ℤ window) (n -ℤ window) s.dust (omega int_laws) a)
    | inr q ↦ rw (p, q) (sum_counted_mono (pos 0) (n -ℤ window) s.dust (ground arith) a)
  ]
  | inr p ↦ elim (Bool-cases (ltb_ℤ (pos 0) (m -ℤ window))) [
    | inl q ↦ absurd (ground (arith, -ℤ_parts m window, -ℤ_parts n window))
    | inr q ↦ rw (p, q) (omega arith)
  ]
]

pub sum_counted-append :
    (limit : Number) (r : DustRequest) (now : Number) (ds : List DustRow)
    → sum_counted limit (ds ++ new_dust r now ∷ []) ≡ sum_counted limit ds +ℤ r.amount
unfolding sum_counted new_dust counts
sum_counted-append limit r now [] = omega int_laws
sum_counted-append limit r now (d ∷ ds) = elim (Bool-cases (counts limit d.state d.spent_at_ms)) [
  | inl e ↦ rw (e, sum_counted-append limit r now ds) (omega int_laws)
  | inr e ↦ rw (e, sum_counted-append limit r now ds)
]

move_dust_le :
    (limit : Number) (next : DustState) (now : Number) (d : DustRow) (rest rest' : ℤ)
    → d.state ≡ reserved
    → IsPositive d
    → rest ≤ℤ rest'
    → (if counts limit (move_dust next now d).state (move_dust next now d).spent_at_ms
        then (move_dust next now d).amount +ℤ rest
        else rest)
      ≤ℤ d.amount +ℤ rest'
unfolding move_dust counts
move_dust_le limit reserved now d rest rest' e p h = omega int_laws
move_dust_le limit spent now d rest rest' e p h =
    ground (arith, +ℤ_parts d.amount rest, +ℤ_parts d.amount rest')
move_dust_le limit released now d rest rest' e p h = omega int_laws

pub eq_reserved : (a : DustState) → eq_dust_state a reserved ≡ true → a ≡ reserved
eq_reserved reserved h = refl
eq_reserved spent h = cc
eq_reserved released h = cc

pub sum_counted-move_held :
    (limit : Number) (key : Text) (next : DustState) (now : Number) (ds : List DustRow)
    → All IsPositive ds
    → sum_counted limit (move_held key next now ds) ≤ℤ sum_counted limit ds
unfolding sum_counted move_held
sum_counted-move_held limit key next now [] a = omega arith
sum_counted-move_held limit key next now (d ∷ ds) a =
    let rest = sum_counted-move_held limit key next now ds a.1 in
    elim (Bool-cases (is_held key d)) [
      | inl held ↦
          let e = eq_reserved d.state (unfold is_held in ground arith) in
          let counted : counts limit d.state d.spent_at_ms ≡ true = unfold counts in rw e in
          rw (held, counted) (move_dust_le limit next now d _ _ e a.0 rest)
      | inr free ↦ rw free (
          ground (
            arith,
            rest,
            +ℤ_parts d.amount (sum_counted limit (move_held key next now ds)),
            +ℤ_parts d.amount (sum_counted limit ds),
          ))
    ]

pub move_held-IsPositive :
    (key : Text) (next : DustState) (now : Number) (ds : List DustRow)
    → All IsPositive ds
    → All IsPositive (move_held key next now ds)
unfolding move_held move_dust
move_held-IsPositive key next now [] a = tt
move_held-IsPositive key next now (d ∷ ds) a = (
  elim (Bool-cases (is_held key d)) [ inl held ↦ rw held (moved next) | inr free ↦ rw free a.0 ],
  move_held-IsPositive key next now ds a.1,
)
  where
    moved : (next : DustState) → IsPositive (move_dust next now d)
    moved reserved = a.0
    moved spent = a.0
    moved released = a.0

pub sum_counted-keep_if :
    (limit : Number) (test : DustRow → Bool) (ds : List DustRow)
    → All IsPositive ds
    → (sum_counted limit (keep_if test ds) ≤ℤ sum_counted limit ds)
      × All IsPositive (keep_if test ds)
unfolding sum_counted
sum_counted-keep_if limit test [] a = (omega arith, tt)
sum_counted-keep_if limit test (d ∷ ds) a =
    let (less, positive) = sum_counted-keep_if limit test ds a.1 in
    elim (Bool-cases (test d)) [
      | inl e ↦ rw e (
        ground (
          arith,
          +ℤ_parts d.amount (sum_counted limit (keep_if test ds)),
          +ℤ_parts d.amount (sum_counted limit ds),
        ),
        (a.0, positive),
      )
      | inr e ↦ rw e (ground (arith, less, +ℤ_parts d.amount (sum_counted limit ds)), positive)
    ]
