-- ===== src/Ladder/Schema.antt =====
-- The ladders that `rejectLevels` lets through.
use zswap_offerfiles_kernel.Prelude.{
  ◌≤◌, ◌<◌, ◌≡◌, ◌↔◌, refl, subst, true, Option, none, some, List, [], ◌∷◌, map, length, All, arith,
}
use zswap_offerfiles_kernel.Prelude.Text.{Text, codes}
use zswap_offerfiles_kernel.Prelude.Decimal.{value_from}
use zswap_offerfiles_kernel.Prelude.Json.{
  Json, undefined, null, bool, num, str, arr, obj, Items, items_list, get,
}
use zswap_offerfiles_kernel.Ladder.{
  PriceLevel, is_amount, is_amount_string, is_object, as_level, as_string, check_previous,
  check_rung, check_rungs, reject_levels,
}
use zswap_offerfiles_kernel.Ladder.Staircase.{Point, Rises}

abbrev pub point_of : PriceLevel → Point
point_of l = (value_from 0 l.input, value_from 0 l.output)

-- a positive amount, as a string
pub record IsAmount (v : Json) : Type 0 where
  pub text : Text
  pub spelled : v ≡ str text
  pub accepted : is_amount text ≡ true
  pub positive : 1 ≤ value_from 0 text

pub record IsRung (j : Json) : Type 0 where
  pub object : is_object j ≡ true
  pub input : IsAmount (get (codes "input") j)
  pub output : IsAmount (get (codes "output") j)

abbrev pub RisesBehind : Option PriceLevel → List Point → Type 0
RisesBehind (some l) ps = Rises (point_of l) ps
RisesBehind none [] = Unit {0}
RisesBehind none (p ∷ ps) = Rises p ps

-- A ladder: one to 64 rungs, their inputs ascending and their outputs not descending.
pub record IsLadder (j : Json) : Type 0 where
  pub items : Items
  pub array : j ≡ arr items
  pub nonempty : 1 ≤ length (items_list items)
  pub bounded : length (items_list items) ≤ 64
  pub rungs : All IsRung (items_list items)
  pub rises : RisesBehind none (map point_of (map as_level (items_list items)))

amount_string :
    (v : Json) → is_amount_string v ≡ true → (s : Text) × (v ≡ str s) × (is_amount s ≡ true)
unfolding is_amount_string
amount_string (str s) h = (s, refl, h)
amount_string undefined h = cc
amount_string null h = cc
amount_string (bool b) h = cc
amount_string (num n) h = cc
amount_string (arr js) h = cc
amount_string (obj fs) h = cc

amount_test : {v : Json} → IsAmount v → is_amount_string v ≡ true
unfolding is_amount_string
amount_test a = rw a.spelled a.accepted

amount_value : {v : Json} → IsAmount v → 1 ≤ value_from 0 (as_string v)
amount_value a = rw a.spelled a.positive

tested-IsAmount :
    (v : Json) → is_amount_string v ≡ true → 1 ≤ value_from 0 (as_string v) → IsAmount v
tested-IsAmount v h p =
    let (s, e, a) = amount_string v h in
    record {
      text = s;
      spelled = e;
      accepted = a;
      positive = subst (λ w. 1 ≤ value_from 0 (as_string w)) e p;
    }

check_rung_iff :
    (prev : Option PriceLevel) (j : Json)
    → (check_rung prev j ≡ none) ↔ (IsRung j × (check_previous prev (as_level j) ≡ none))
unfolding check_rung
check_rung_iff prev j = (only, back)
  where
    only : check_rung prev j ≡ none → IsRung j × (check_previous prev (as_level j) ≡ none)
    only h = (
      record {
        object = ground arith;
        input = tested-IsAmount (get (codes "input") j) (ground arith) (ground arith);
        output = tested-IsAmount (get (codes "output") j) (ground arith) (ground arith);
      },
      ground arith,
    )

    back : IsRung j × (check_previous prev (as_level j) ≡ none) → check_rung prev j ≡ none
    back (r, h) = ground (
      arith,
      r.object,
      amount_test r.input,
      amount_test r.output,
      amount_value r.input,
      amount_value r.output,
    )

previous_iff :
    (prev l : PriceLevel)
    → (check_previous (some prev) l ≡ none)
      ↔ (((point_of prev).0 < (point_of l).0) × ((point_of prev).1 ≤ (point_of l).1))
unfolding check_previous
previous_iff prev l = ((λ h. (ground arith, ground arith)), (λ h. ground arith))

abbrev points : List Json → List Point
points js = map point_of (map as_level js)

rises_iff :
    (prev : Option PriceLevel) (l : PriceLevel) (ps : List Point)
    → RisesBehind prev (point_of l ∷ ps)
      ↔ ((check_previous prev l ≡ none) × RisesBehind (some l) ps)
unfolding check_previous
rises_iff none l ps = ((λ r. (refl, r)), (λ r. r.1))
rises_iff (some prev) l ps = (
  (λ r. ((previous_iff prev l).1 (r.0, r.1), r.2)),
  (λ r. let s = (previous_iff prev l).0 r.0 in (s.0, s.1, r.1)),
)

behind_none : (prev : Option PriceLevel) → RisesBehind prev []
behind_none none = tt
behind_none (some l) = tt

check_rungs_iff :
    (prev : Option PriceLevel) (js : List Json)
    → (check_rungs prev js ≡ none) ↔ (All IsRung js × RisesBehind prev (points js))
unfolding check_rungs
check_rungs_iff prev [] = ((λ _. (tt, behind_none prev)), (λ _. refl))
check_rungs_iff prev (j ∷ js) =
    let one = check_rung_iff prev j in
    let others = check_rungs_iff (some (as_level j)) js in
    let split = rises_iff prev (as_level j) (points js) in
    (
      (λ h.
          let (r, p) = one.0 (ground arith) in
          let (rs, up) = others.0 (ground arith) in ((r, rs), split.1 (p, up))),
      (λ (rs, ps).
          let (p, up) = split.0 ps in rw (one.1 (rs.0, p), check_rungs) (others.1 (rs.1, up))),
    )

-- `rejectLevels` finds nothing to object to exactly in the ladders: arrays of one to 64 rungs of
-- positive amounts, the inputs ascending and the outputs not descending.
pub reject_levels_iff : (j : Json) → (reject_levels j ≡ none) ↔ IsLadder j
unfolding reject_levels
reject_levels_iff j = (only j, λ l. rw l.array (back l))
  where
    only : (j : Json) → reject_levels j ≡ none → IsLadder j
    only (arr js) h =
        let all = (check_rungs_iff none (items_list js)).0 (ground arith) in
        record {
          items = js;
          array = refl;
          nonempty = ground arith;
          bounded = ground arith;
          rungs = all.0;
          rises = all.1;
        }
    only undefined h = cc
    only null h = cc
    only (bool b) h = cc
    only (num n) h = cc
    only (str s) h = cc
    only (obj fs) h = cc

    back : {j : Json} (l : IsLadder j) → reject_levels (arr l.items) ≡ none
    back l =
        let fine = (check_rungs_iff none (items_list l.items)).1 (l.rungs, l.rises) in
        let some_rung = l.nonempty in let few = l.bounded in ground arith
