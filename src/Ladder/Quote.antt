-- ===== src/Ladder/Quote.antt =====
-- The quotes of accepted ladders.
use zswap_offerfiles_kernel.Prelude.{
  ℕ, ◌+◌, ◌-◌, ◌*◌, ◌/◌, ◌≤◌, ◌<◌, ◌≡◌, true, false, none, some, List, [], ◌∷◌, if◌then◌else◌, ltb,
  ◌||◌, arith, Bool-cases, inl, inr, ok,
}
use zswap_offerfiles_kernel.Prelude.Int.{ℤ, pos, ◌+ℤ◌, ◌-ℤ◌, ◌*ℤ◌, ◌/ℤ◌, ltb_ℤ, leb_ℤ}
use zswap_offerfiles_kernel.Prelude.Text.{Text}
use zswap_offerfiles_kernel.Prelude.BigInt.{big_int}
use zswap_offerfiles_kernel.Ladder.{
  PriceLevel, read, read_output, between, last_level, quote_from, quote_below, interpolate_quote,
}
use zswap_offerfiles_kernel.Ladder.Staircase.{Point, Rises, last_point, segment, quote_at}

pos-difference : (a b : ℕ) → b ≤ a → pos a -ℤ pos b ≡ pos (a - b)
unfolding ◌-ℤ◌
pos-difference a b h = ground arith

pos-product : (a b : ℕ) → pos a *ℤ pos b ≡ pos (a * b)
unfolding ◌*ℤ◌
pos-product a b = ground arith

pos-sum : (a b : ℕ) → pos a +ℤ pos b ≡ pos (a + b)
unfolding ◌+ℤ◌
pos-sum a b = ground arith

-- the line between two points, on the integers of the source
line :
    (lo hi : Point) (a : ℕ)
    → lo.0 < hi.0
    → lo.1 ≤ hi.1
    → lo.0 ≤ a
    → pos lo.1 +ℤ ((pos hi.1 -ℤ pos lo.1) *ℤ (pos a -ℤ pos lo.0)) /ℤ (pos hi.0 -ℤ pos lo.0)
      ≡ pos (segment lo hi a)
unfolding segment ◌/ℤ◌
line lo hi a steep up above =
    rw
      (
        pos-difference hi.1 lo.1 up,
        pos-difference a lo.0 above,
        pos-difference hi.0 lo.0 (omega arith),
        pos-product (hi.1 - lo.1) (a - lo.0),
      )
      (pos-sum lo.1 ((hi.1 - lo.1) * (a - lo.0) / (hi.0 - lo.0)))

pub record Spells (l : PriceLevel) (p : Point) : Type 0 where
  pub input : big_int l.input ≡ some (pos p.0)
  pub output : big_int l.output ≡ some (pos p.1)

abbrev pub AreSpelled : List PriceLevel → List Point → Type 0
AreSpelled [] [] = Unit {0}
AreSpelled (l ∷ ls) (p ∷ ps) = Spells l p × AreSpelled ls ps
AreSpelled [] (p ∷ ps) = ⊥
AreSpelled (l ∷ ls) [] = ⊥

pub read_of : (s : Text) (x : ℤ) → big_int s ≡ some x → read s ≡ ok x
unfolding read
read_of s x h = rw (h, read)

last-Spells :
    (l : PriceLevel) (ls : List PriceLevel) (p : Point) (ps : List Point)
    → Spells l p
    → AreSpelled ls ps
    → Spells (last_level l ls) (last_point p ps)
last-Spells l [] p [] e es = e
last-Spells l (m ∷ ls) p (q ∷ ps) e es = last-Spells m ls q ps es.0 es.1
last-Spells l [] p (q ∷ ps) e es = absurd es
last-Spells l (m ∷ ls) p [] e es = absurd es

read_output_of : (l : PriceLevel) (p : Point) → Spells l p → read_output l ≡ ok (some (pos p.1))
read_output_of l p e = rw (read_of l.output (pos p.1) e.output)

between_of :
    (lo hi : PriceLevel) (p q : Point) (a : ℕ)
    → Spells lo p
    → Spells hi q
    → p.0 < q.0
    → p.1 ≤ q.1
    → p.0 ≤ a
    → between lo hi (pos a) (pos p.0) (pos q.0) ≡ ok (some (pos (segment p q a)))
unfolding between
between_of lo hi p q a e f steep up above =
    let ordered : leb_ℤ (pos q.0) (pos p.0) ≡ false = ground arith in
    rw (
      ordered,
      read_of lo.output (pos p.1) e.output,
      read_of hi.output (pos q.1) f.output,
      line p q a steep up above,
    )

quote_from_of :
    (l : PriceLevel) (ls : List PriceLevel) (p : Point) (ps : List Point) (a : ℕ)
    → Spells l p
    → AreSpelled ls ps
    → Rises p ps
    → p.0 ≤ a
    → quote_from l ls (pos a) ≡ ok (some (pos (quote_at p ps a)))
unfolding quote_from quote_at
quote_from_of l [] p [] a e es r h = read_output_of l p e
quote_from_of l [] p (q ∷ ps) a e es r h = absurd es
quote_from_of l (m ∷ ls) p [] a e es r h = absurd es
quote_from_of l (m ∷ ls) p (q ∷ ps) a e es r h =
    let (f, fs) = es in
    elim (Bool-cases (ltb q.0 a)) [
      | inl passed ↦
          let wide : ltb_ℤ (pos q.0) (pos a) ≡ true = ground arith in
          rw (read_of l.input (pos p.0) e.input, read_of m.input (pos q.0) f.input, wide, passed)
            (quote_from_of m ls q ps a f fs r.2 (ground arith))
      | inr within ↦
          let wide : ltb_ℤ (pos q.0) (pos a) ≡ false = ground arith in
          rw (read_of l.input (pos p.0) e.input, read_of m.input (pos q.0) f.input, wide, within)
            (between_of l m p q a e f r.0 r.1 h)
    ]

pub interpolate_quote_of :
    (l : PriceLevel) (ls : List PriceLevel) (p : Point) (ps : List Point) (a : ℕ)
    → Spells l p
    → AreSpelled ls ps
    → Rises p ps
    → interpolate_quote (l ∷ ls) (pos a)
      ≡ ok (if ltb a p.0 || ltb (last_point p ps).0 a then none else some (pos (quote_at p ps a)))
unfolding interpolate_quote quote_below
interpolate_quote_of l ls p ps a e es r =
    let top = last-Spells l ls p ps e es in
    elim (Bool-cases (ltb a p.0)) [
      | inl below ↦
          let below' : ltb_ℤ (pos a) (pos p.0) ≡ true = ground arith in
          rw (read_of l.input (pos p.0) e.input, below', below)
      | inr above ↦
          let above' : ltb_ℤ (pos a) (pos p.0) ≡ false = ground arith in
          elim (Bool-cases (ltb (last_point p ps).0 a)) [
            | inl over ↦
                let over' : ltb_ℤ (pos (last_point p ps).0) (pos a) ≡ true = ground arith in
                rw (
                  read_of l.input (pos p.0) e.input,
                  read_of (last_level l ls).input (pos (last_point p ps).0) top.input,
                  above',
                  over',
                  above,
                  over,
                )
            | inr under ↦
                let under' : ltb_ℤ (pos (last_point p ps).0) (pos a) ≡ false = ground arith in
                rw
                  (
                    read_of l.input (pos p.0) e.input,
                    read_of (last_level l ls).input (pos (last_point p ps).0) top.input,
                    above',
                    under',
                    above,
                    under,
                  )
                  (quote_from_of l ls p ps a e es r (ground arith))
          ]
    ]
