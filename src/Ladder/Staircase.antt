-- ===== src/Ladder/Staircase.antt =====
-- Staircases of points, and the quote of one as a function of the amount.
use zswap_offerfiles_kernel.Prelude.{
  refl, subst, true, false, ℕ, ◌+◌, ◌-◌, ◌*◌, ◌/◌, ◌≤◌, ◌<◌, ◌≡◌, ◌⊎◌, inl, inr, List, [], ◌∷◌,
  if◌then◌else◌, ltb, arith, ap, sym,
}
use native.Mathlib.Nat.{
  mul-le-mul_left, div-mul-le_self, lt-div-mul-add, le-div_iff_mul-le, mul-div_cancel, zero-div,
}

abbrev pub Point : Type 0
Point = ℕ × ℕ

-- Behind `p`: the inputs ascend, the outputs do not descend.
abbrev pub Rises : Point → List Point → Type 0
Rises p [] = Unit {0}
Rises p (q ∷ ps) = (p.0 < q.0) × (p.1 ≤ q.1) × Rises q ps

abbrev pub last_point : Point → List Point → Point
last_point p [] = p
last_point p (q ∷ ps) = last_point q ps

abbrev pub IsPoint : Point → Point → List Point → Type 0
IsPoint r p [] = r ≡ p
IsPoint r p (q ∷ ps) = (r ≡ p) ⊎ IsPoint r q ps

-- the floor of the line between two points
unfoldable pub segment : Point → Point → ℕ → ℕ
segment lo hi a = lo.1 + (hi.1 - lo.1) * (a - lo.0) / (hi.0 - lo.0)

unfoldable pub quote_at : Point → List Point → ℕ → ℕ
quote_at p [] a = p.1
quote_at p (q ∷ ps) a = if ltb q.0 a then quote_at q ps a else segment p q a

div_mono : (m n k : ℕ) → 0 < k → m ≤ n → m / k ≤ n / k
div_mono m n k p h = (le-div_iff_mul-le p).1 (omega (arith, div-mul-le_self m k))

module _ (lo hi : Point) (steep : lo.0 < hi.0) (up : lo.1 ≤ hi.1) where
  pub segment_low : (a : ℕ) → lo.1 ≤ segment lo hi a
  unfolding segment
  segment_low a = omega arith

  segment_mono : (a b : ℕ) → a ≤ b → segment lo hi a ≤ segment lo hi b
  unfolding segment
  segment_mono a b h =
      let more = mul-le-mul_left {m = a - lo.0} {n = b - lo.0} (hi.1 - lo.1) (omega arith) in
      let less = div_mono _ _ (hi.0 - lo.0) (omega arith) more in omega (arith, less)

  segment_top : segment lo hi hi.0 ≡ hi.1
  unfolding segment
  segment_top =
      let whole = mul-div_cancel (hi.1 - lo.1) {n = hi.0 - lo.0} (omega arith) in
      omega (arith, whole)

  segment_high : (a : ℕ) → a ≤ hi.0 → segment lo hi a ≤ hi.1
  segment_high a h = omega (arith, segment_mono a hi.0 h, segment_top)

  -- the floor: at most the line, by less than one
  pub segment_floor :
      (a : ℕ)
      → ((segment lo hi a - lo.1) * (hi.0 - lo.0) ≤ (hi.1 - lo.1) * (a - lo.0))
        × ((hi.1 - lo.1) * (a - lo.0) < (segment lo hi a - lo.1) * (hi.0 - lo.0) + (hi.0 - lo.0))
  unfolding segment
  segment_floor a =
      let x = (hi.1 - lo.1) * (a - lo.0) in
      let d = hi.0 - lo.0 in
      let back : lo.1 + x / d - lo.1 ≡ x / d = omega arith in
      rw back (div-mul-le_self x d, lt-div-mul-add (omega arith))

segment_bottom : (lo hi : Point) → segment lo hi lo.0 ≡ lo.1
unfolding segment
segment_bottom lo hi =
    let gap : lo.0 - lo.0 ≡ 0 = omega arith in
    let flat : (hi.1 - lo.1) * (lo.0 - lo.0) ≡ 0 = rw gap (omega arith) in
    rw (flat, zero-div (hi.0 - lo.0)) (omega arith)

pub quote_at_low : (p : Point) (ps : List Point) (a : ℕ) → Rises p ps → p.1 ≤ quote_at p ps a
unfolding quote_at
quote_at_low p [] a r = omega arith
quote_at_low p (q ∷ ps) a r = ground (arith, quote_at_low q ps a r.2, segment_low p q r.0 r.1 a)

last_high : (p : Point) (ps : List Point) → Rises p ps → p.1 ≤ (last_point p ps).1
last_high p [] r = omega arith
last_high p (q ∷ ps) r = omega (arith, last_high q ps r.2)

pub quote_at_high :
    (p : Point) (ps : List Point) (a : ℕ) → Rises p ps → quote_at p ps a ≤ (last_point p ps).1
unfolding quote_at
quote_at_high p [] a r = omega arith
quote_at_high p (q ∷ ps) a r =
    ground (arith, quote_at_high q ps a r.2, segment_high p q r.0 r.1 a, last_high q ps r.2)

pub quote_at_mono :
    (p : Point) (ps : List Point) (a b : ℕ) → Rises p ps → a ≤ b → quote_at p ps a ≤ quote_at p ps b
unfolding quote_at
quote_at_mono p [] a b r h = omega arith
quote_at_mono p (q ∷ ps) a b r h = ground (
  arith,
  quote_at_mono q ps a b r.2 h,
  segment_mono p q r.0 r.1 a b h,
  segment_high p q r.0 r.1 a,
  quote_at_low q ps b r.2,
)

last_above : (p : Point) (ps : List Point) → Rises p ps → p.0 ≤ (last_point p ps).0
last_above p [] r = omega arith
last_above p (q ∷ ps) r = omega (arith, last_above q ps r.2)

pub point_above :
    (x p : Point) (ps : List Point) → Rises p ps → IsPoint x p ps → (x ≡ p) ⊎ (p.0 < x.0)
point_above x p [] r m = inl m
point_above x p (q ∷ ps) r (inl e) = inl e
point_above x p (q ∷ ps) r (inr m) =
    inr (elim (point_above x q ps r.2 m) [ inl e ↦ rw e r.0 | inr l ↦ omega arith ])

pub point_below :
    (x p : Point) (ps : List Point) → Rises p ps → IsPoint x p ps → x.0 ≤ (last_point p ps).0
point_below x p [] r m = rw m (omega arith)
point_below x p (q ∷ ps) r (inl e) = rw e (last_above p (q ∷ ps) r)
point_below x p (q ∷ ps) r (inr m) = point_below x q ps r.2 m

-- A point of the staircase is quoted exactly.
pub quote_at_point :
    (x p : Point) (ps : List Point) → Rises p ps → IsPoint x p ps → quote_at p ps x.0 ≡ x.1
unfolding quote_at
quote_at_point x p [] r m = ap (λ y. y.1) (sym m)
quote_at_point x p (q ∷ ps) r (inl e) = rw e (ground (arith, segment_bottom p q))
quote_at_point x p (q ∷ ps) r (inr m) =
    ground (arith, point_above x q ps r.2 m, segment_top p q r.0 r.1, quote_at_point x q ps r.2 m)

-- `hi` comes directly behind `lo`.
abbrev pub AreNeighbours : Point → Point → Point → List Point → Type 0
AreNeighbours lo hi p [] = ⊥
AreNeighbours lo hi p (q ∷ ps) = ((lo ≡ p) × (hi ≡ q)) ⊎ AreNeighbours lo hi q ps

head-IsPoint : (p : Point) (ps : List Point) → IsPoint p p ps
head-IsPoint p [] = refl
head-IsPoint p (q ∷ ps) = inl refl

pub AreNeighbours-low :
    (lo hi p : Point) (ps : List Point) → AreNeighbours lo hi p ps → IsPoint lo p ps
AreNeighbours-low lo hi p [] n = absurd n
AreNeighbours-low lo hi p (q ∷ ps) (inl (e, f)) = inl e
AreNeighbours-low lo hi p (q ∷ ps) (inr n) = inr (AreNeighbours-low lo hi q ps n)

pub AreNeighbours-high :
    (lo hi p : Point) (ps : List Point) → AreNeighbours lo hi p ps → IsPoint hi p ps
AreNeighbours-high lo hi p [] n = absurd n
AreNeighbours-high lo hi p (q ∷ ps) (inl (e, f)) =
    inr (subst (λ x. IsPoint x q ps) (sym f) (head-IsPoint q ps))
AreNeighbours-high lo hi p (q ∷ ps) (inr n) = inr (AreNeighbours-high lo hi q ps n)

pub AreNeighbours-Rises :
    (lo hi p : Point) (ps : List Point)
    → Rises p ps
    → AreNeighbours lo hi p ps
    → (lo.0 < hi.0) × (lo.1 ≤ hi.1)
AreNeighbours-Rises lo hi p [] r n = absurd n
AreNeighbours-Rises lo hi p (q ∷ ps) r (inl (e, f)) = rw (e, f) (r.0, r.1)
AreNeighbours-Rises lo hi p (q ∷ ps) r (inr n) = AreNeighbours-Rises lo hi q ps r.2 n

-- Behind a point, up to the next one, the quote is the segment's.
pub quote_at_between :
    (lo hi p : Point) (ps : List Point) (a : ℕ)
    → Rises p ps
    → AreNeighbours lo hi p ps
    → lo.0 < a
    → a ≤ hi.0
    → quote_at p ps a ≡ segment lo hi a
unfolding quote_at
quote_at_between lo hi p [] a r n h k = absurd n
quote_at_between lo hi p (q ∷ ps) a r (inl (e, f)) h k =
    let top : a ≤ q.0 = subst (λ x. a ≤ x.0) f k in
    let within : ltb q.0 a ≡ false = ground arith in rw (within, e, f)
quote_at_between lo hi p (q ∷ ps) a r (inr n) h k =
    let behind : q.0 ≤ lo.0 = elim (point_above lo q ps r.2 (AreNeighbours-low lo hi q ps n)) [
      | inl e ↦ let same : lo.0 ≡ q.0 = ap (λ x. x.0) e in omega arith
      | inr l ↦ omega arith
    ] in
    let passed : ltb q.0 a ≡ true = ground arith in
    rw passed (quote_at_between lo hi q ps a r.2 n h k)
