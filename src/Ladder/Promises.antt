-- ===== src/Ladder/Promises.antt =====
-- What `interpolateQuote` promises of the ladders that `rejectLevels` lets through.
use zswap_offerfiles_kernel.Prelude.{
  ℕ, ◌+◌, ◌-◌, ◌*◌, ◌<◌, ◌≤◌, ◌≡◌, ◌⊎◌, refl, sym, ap, subst, ◌∙◌, false, none, some, List, [], ◌∷◌,
  ◌++◌, map, ltb, arith, Bool-cases, inl, inr, ok,
}
use zswap_offerfiles_kernel.Prelude.Int.{ℤ, pos, negsuc, ◌≤ℤ◌, ◌<ℤ◌}
use zswap_offerfiles_kernel.Prelude.Decimal.{value_from}
use zswap_offerfiles_kernel.Prelude.Json.{Json}
use zswap_offerfiles_kernel.Ladder.{PriceLevel, as_levels, interpolate_quote, reject_levels}
use zswap_offerfiles_kernel.Ladder.Staircase.{
  Rises, last_point, IsPoint, quote_at, quote_at_low, quote_at_high, quote_at_mono, quote_at_point,
  point_above, point_below, segment, segment_low, segment_floor, AreNeighbours, AreNeighbours-low,
  AreNeighbours-high, AreNeighbours-Rises, quote_at_between,
}
use zswap_offerfiles_kernel.Ladder.Schema.{point_of}
use zswap_offerfiles_kernel.Ladder.Accepted.{
  IsRising, accepted-IsRising, ends, points_quote, quote_points,
}

points_total :
    (ls : List PriceLevel) (a : ℤ)
    → IsRising ls
    → ((points_quote ls a ≡ none) × ((a <ℤ pos (ends ls).0.0) ⊎ (pos (ends ls).1.0 <ℤ a)))
      ⊎ ((x : ℤ) × (points_quote ls a ≡ some x)
          × (pos (ends ls).0.0 ≤ℤ a)
          × (a ≤ℤ pos (ends ls).1.0)
          × (pos (ends ls).0.1 ≤ℤ x)
          × (x ≤ℤ pos (ends ls).1.1))
unfolding points_quote
points_total [] a r = cc
points_total (l ∷ ls) (negsuc a) r = inl (refl, inl (omega arith))
points_total (l ∷ ls) (pos a) r = elim (Bool-cases (ltb a (point_of l).0)) [
  | inl below ↦ inl (rw below, inl (ground arith))
  | inr above ↦ elim (Bool-cases (ltb (last_point (point_of l) (map point_of ls)).0 a)) [
    | inl over ↦ inl (rw (above, over), inr (ground arith))
    | inr under ↦
        let up = rises_of in
        inr (
          pos (quote_at (point_of l) (map point_of ls) a),
          rw (above, under),
          ground arith,
          ground arith,
          omega (arith, quote_at_low (point_of l) (map point_of ls) a up),
          omega (arith, quote_at_high (point_of l) (map point_of ls) a up),
        )
  ]
]
  where
    rises_of : Rises (point_of l) (map point_of ls)
    rises_of =
        let same : r.first ≡ l = cc in
        let rest : r.others ≡ ls = cc in
        subst (λ k. Rises (point_of k) (map point_of ls)) same
          (subst (λ ks. Rises (point_of r.first) (map point_of ks)) rest r.rises)

-- On an accepted ladder no quote throws. There is none for the amounts below the first input and
-- above the last; in between there is one, from the first output to the last.
pub quote_range :
    (j : Json) (a : ℤ)
    → reject_levels j ≡ none
    → ((interpolate_quote (as_levels j) a ≡ ok none)
        × ((a <ℤ pos (ends (as_levels j)).0.0) ⊎ (pos (ends (as_levels j)).1.0 <ℤ a)))
      ⊎ ((x : ℤ) × (interpolate_quote (as_levels j) a ≡ ok (some x))
          × (pos (ends (as_levels j)).0.0 ≤ℤ a)
          × (a ≤ℤ pos (ends (as_levels j)).1.0)
          × (pos (ends (as_levels j)).0.1 ≤ℤ x)
          × (x ≤ℤ pos (ends (as_levels j)).1.1))
quote_range j a h =
    let r = accepted-IsRising j h in
    rw (quote_points (as_levels j) a r) (elim (points_total (as_levels j) a r) [
      | inl (e, out) ↦ inl (ap ok e, out)
      | inr (x, e, low, high, least, most) ↦ inr (x, ap ok e, low, high, least, most)
    ])

points_mono :
    (ls : List PriceLevel) (a b x y : ℤ)
    → IsRising ls
    → a ≤ℤ b
    → points_quote ls a ≡ some x
    → points_quote ls b ≡ some y
    → x ≤ℤ y
unfolding points_quote
points_mono [] a b x y r h e f = cc
points_mono (l ∷ ls) (negsuc a) b x y r h e f = cc
points_mono (l ∷ ls) (pos a) (negsuc b) x y r h e f = cc
points_mono (l ∷ ls) (pos a) (pos b) x y r h e f =
    let same : r.first ≡ l = cc in
    let rest : r.others ≡ ls = cc in
    let up =
      subst (λ k. Rises (point_of k) (map point_of ls)) same
        (subst (λ ks. Rises (point_of r.first) (map point_of ks)) rest r.rises) in
    ground (arith, quote_at_mono (point_of l) (map point_of ls) a b up)

-- On an accepted ladder a larger amount is never quoted less.
pub quote_mono :
    (j : Json) (a b x y : ℤ)
    → reject_levels j ≡ none
    → a ≤ℤ b
    → interpolate_quote (as_levels j) a ≡ ok (some x)
    → interpolate_quote (as_levels j) b ≡ ok (some y)
    → x ≤ℤ y
quote_mono j a b x y h le e f =
    let r = accepted-IsRising j h in
    let e' = quote_points (as_levels j) a r in
    let f' = quote_points (as_levels j) b r in
    let at_a : points_quote (as_levels j) a ≡ some x = cc in
    let at_b : points_quote (as_levels j) b ≡ some y = cc in
    points_mono (as_levels j) a b x y r le at_a at_b

rung-IsPoint :
    (l first : PriceLevel) (others front back : List PriceLevel)
    → first ∷ others ≡ front ++ l ∷ back
    → IsPoint (point_of l) (point_of first) (map point_of others)
rung-IsPoint l first [] [] back h = let same : l ≡ first = cc in ap point_of same
rung-IsPoint l first (x ∷ others) [] back h = inl (let same : l ≡ first = cc in ap point_of same)
rung-IsPoint l first [] (y ∷ []) back h = cc
rung-IsPoint l first [] (y ∷ z ∷ front) back h = cc
rung-IsPoint l first (x ∷ others) (y ∷ front) back h = inr (rung-IsPoint l x others front back cc)

points_exact :
    (l first : PriceLevel) (others : List PriceLevel)
    → Rises (point_of first) (map point_of others)
    → IsPoint (point_of l) (point_of first) (map point_of others)
    → points_quote (first ∷ others) (pos (point_of l).0) ≡ some (pos (point_of l).1)
unfolding points_quote
points_exact l first others up m =
    let p = point_of first in
    let ps = map point_of others in
    let above : ltb (point_of l).0 p.0 ≡ false = elim (point_above (point_of l) p ps up m) [
      | inl e ↦ let same : (point_of l).0 ≡ p.0 = ap (λ x. x.0) e in ground arith
      | inr lt ↦ ground arith
    ] in
    let below = point_below (point_of l) p ps up m in
    let under : ltb (last_point p ps).0 (point_of l).0 ≡ false = ground arith in
    rw (above, under, quote_at_point (point_of l) p ps up m)

-- On an accepted ladder the input of a rung is quoted at the output of that rung.
pub quote_rung :
    (j : Json) (l : PriceLevel) (front back : List PriceLevel)
    → reject_levels j ≡ none
    → as_levels j ≡ front ++ l ∷ back
    → interpolate_quote (as_levels j) (pos (value_from 0 l.input))
      ≡ ok (some (pos (value_from 0 l.output)))
quote_rung j l front back h split =
    let r = accepted-IsRising j h in
    let m = rung-IsPoint l r.first r.others front back (sym r.all ∙ split) in
    let exact = points_exact l r.first r.others r.rises m in
    rw (quote_points (as_levels j) (pos (value_from 0 l.input)) r, r.all, exact)

rungs-AreNeighbours :
    (lo hi first : PriceLevel) (others front back : List PriceLevel)
    → first ∷ others ≡ front ++ lo ∷ hi ∷ back
    → AreNeighbours (point_of lo) (point_of hi) (point_of first) (map point_of others)
rungs-AreNeighbours lo hi first [] [] back h = cc
rungs-AreNeighbours lo hi first (x ∷ others) [] back h =
    let here : lo ≡ first = cc in let next : hi ≡ x = cc in inl (ap point_of here, ap point_of next)
rungs-AreNeighbours lo hi first [] (y ∷ []) back h = cc
rungs-AreNeighbours lo hi first [] (y ∷ z ∷ front) back h = cc
rungs-AreNeighbours lo hi first (x ∷ others) (y ∷ front) back h =
    inr (rungs-AreNeighbours lo hi x others front back cc)

points_between :
    (lo hi first : PriceLevel) (others : List PriceLevel) (a : ℕ)
    → Rises (point_of first) (map point_of others)
    → AreNeighbours (point_of lo) (point_of hi) (point_of first) (map point_of others)
    → (point_of lo).0 < a
    → a ≤ (point_of hi).0
    → points_quote (first ∷ others) (pos a) ≡ some (pos (segment (point_of lo) (point_of hi) a))
unfolding points_quote
points_between lo hi first others a up n h k =
    let p = point_of first in
    let ps = map point_of others in
    let low =
      point_above (point_of lo) p ps up (AreNeighbours-low (point_of lo) (point_of hi) p ps n) in
    let high =
      point_below (point_of hi) p ps up (AreNeighbours-high (point_of lo) (point_of hi) p ps n) in
    let above : ltb a p.0 ≡ false = elim low [
      | inl e ↦ let same : (point_of lo).0 ≡ p.0 = ap (λ x. x.0) e in ground arith
      | inr lt ↦ ground arith
    ] in
    let under : ltb (last_point p ps).0 a ≡ false = ground arith in
    rw (above, under, quote_at_between (point_of lo) (point_of hi) p ps a up n h k)

-- Between two neighbouring rungs of an accepted ladder the quote is the line between them, rounded
-- down: it is at most the line, by less than one.
pub quote_floor :
    (j : Json) (lo hi : PriceLevel) (front back : List PriceLevel) (a : ℕ)
    → reject_levels j ≡ none
    → as_levels j ≡ front ++ lo ∷ hi ∷ back
    → (point_of lo).0 < a
    → a ≤ (point_of hi).0
    → (x : ℕ) × (interpolate_quote (as_levels j) (pos a) ≡ ok (some (pos ((point_of lo).1 + x))))
      × (x * ((point_of hi).0 - (point_of lo).0)
          ≤ ((point_of hi).1 - (point_of lo).1) * (a - (point_of lo).0))
      × (((point_of hi).1 - (point_of lo).1) * (a - (point_of lo).0)
          < x * ((point_of hi).0 - (point_of lo).0) + ((point_of hi).0 - (point_of lo).0))
quote_floor j lo hi front back a h split above below =
    let r = accepted-IsRising j h in
    let n = rungs-AreNeighbours lo hi r.first r.others front back (sym r.all ∙ split) in
    let (steep, up) = AreNeighbours-Rises (point_of lo) (point_of hi) _ _ r.rises n in
    let quoted = points_between lo hi r.first r.others a r.rises n above below in
    let least = segment_low (point_of lo) (point_of hi) steep up a in
    let (most, close) = segment_floor (point_of lo) (point_of hi) steep up a in
    let back : (point_of lo).1 + (segment (point_of lo) (point_of hi) a - (point_of lo).1)
        ≡ segment (point_of lo) (point_of hi) a =
      omega arith in
    (
      segment (point_of lo) (point_of hi) a - (point_of lo).1,
      rw (quote_points (as_levels j) (pos a) r, r.all, quoted, back),
      most,
      close,
    )
