-- ===== src/Journal/Rows.antt =====
-- Lists of rows: the order of the ids, rows that an UPDATE changes one by one, and rows by id.
use zswap_offerfiles_kernel.Prelude.{
  ℕ, suc, zero, ◌+◌, ◌≤◌, ◌<◌, ◌≡◌, inl, inr, refl, sym, subst, ap, Bool, true, false, Option, none,
  some, List, [], ◌∷◌, ◌++◌, find_if, All, arith, Bool-cases,
}
use zswap_offerfiles_kernel.Prelude.Text.{Text}
use zswap_offerfiles_kernel.Journal.Store.{Row, has_key, find_row, update_where}
use zswap_offerfiles_kernel.Journal.Operations.{same_id, prune_rows}

-- the ids ascend from `n` on, and stay below `m`
abbrev pub Ascends : ℕ → ℕ → List Row → Type 0
Ascends n m [] = n ≤ m
Ascends n m (r ∷ rs) = (n ≤ r.id) × Ascends (suc r.id) m rs

abbrev pub row_at : ℕ → List Row → Option Row
row_at i rows = find_if (same_id i) rows

-- the rows of the one list, changed one by one, are those of the other
abbrev pub Pairwise : (Row → Row → Type 0) → List Row → List Row → Type 0
Pairwise R [] [] = Unit
Pairwise R (x ∷ xs) (y ∷ ys) = R x y × Pairwise R xs ys
Pairwise R [] (y ∷ ys) = ⊥
Pairwise R (x ∷ xs) [] = ⊥

pub Pairwise-update_where :
    (R : Row → Row → Type 0) (test : Row → Bool) (f : Row → Row) (xs : List Row)
    → ((x : Row) → R x x)
    → ((x : Row) → test x ≡ true → R x (f x))
    → Pairwise R xs (update_where test f xs)
unfolding update_where
Pairwise-update_where R test f [] same change = tt
Pairwise-update_where R test f (x ∷ xs) same change = (
  elim (Bool-cases (test x)) [ inl e ↦ rw e (change x e) | inr e ↦ rw e (same x) ],
  Pairwise-update_where R test f xs same change,
)

pub Pairwise-compose :
    (R S T : Row → Row → Type 0) (xs ys zs : List Row)
    → ((x y z : Row) → R x y → S y z → T x z)
    → Pairwise R xs ys
    → Pairwise S ys zs
    → Pairwise T xs zs
Pairwise-compose R S T [] [] [] both p q = tt
Pairwise-compose R S T [] [] (z ∷ zs) both p q = q
Pairwise-compose R S T [] (y ∷ ys) zs both p q = absurd p
Pairwise-compose R S T (x ∷ xs) [] zs both p q = absurd p
Pairwise-compose R S T (x ∷ xs) (y ∷ ys) [] both p q = q
Pairwise-compose R S T (x ∷ xs) (y ∷ ys) (z ∷ zs) both p q =
    (both x y z p.0 q.0, Pairwise-compose R S T xs ys zs both p.1 q.1)

pub Pairwise-refl :
    (R : Row → Row → Type 0) (xs : List Row) → ((x : Row) → R x x) → Pairwise R xs xs
Pairwise-refl R [] same = tt
Pairwise-refl R (x ∷ xs) same = (same x, Pairwise-refl R xs same)

pub All-Pairwise :
    (R : Row → Row → Type 0) (P : Row → Type 0) (xs ys : List Row)
    → ((x y : Row) → R x y → P x → P y)
    → Pairwise R xs ys
    → All P xs
    → All P ys
All-Pairwise R P [] [] keep p a = tt
All-Pairwise R P [] (y ∷ ys) keep p a = absurd p
All-Pairwise R P (x ∷ xs) [] keep p a = absurd p
All-Pairwise R P (x ∷ xs) (y ∷ ys) keep p a =
    (keep x y p.0 a.0, All-Pairwise R P xs ys keep p.1 a.1)

pub Ascends-Pairwise :
    (R : Row → Row → Type 0) (n m : ℕ) (xs ys : List Row)
    → ((x y : Row) → R x y → x.id ≡ y.id)
    → Pairwise R xs ys
    → Ascends n m xs
    → Ascends n m ys
Ascends-Pairwise R n m [] [] keep p a = a
Ascends-Pairwise R n m [] (y ∷ ys) keep p a = absurd p
Ascends-Pairwise R n m (x ∷ xs) [] keep p a = absurd p
Ascends-Pairwise R n m (x ∷ xs) (y ∷ ys) keep p a =
    let e = keep x y p.0 in
    (
      subst (λ i. n ≤ i) e a.0,
      Ascends-Pairwise R (suc y.id) m xs ys keep p.1 (subst (λ i. Ascends (suc i) m xs) e a.1),
    )

pub Ascends-le : (n m : ℕ) (xs : List Row) → Ascends n m xs → n ≤ m
Ascends-le n m [] a = a
Ascends-le n m (x ∷ xs) a = omega (arith, Ascends-le (suc x.id) m xs a.1)

pub Ascends-append :
    (n m : ℕ) (xs : List Row) (r : Row)
    → r.id ≡ m
    → Ascends n m xs
    → Ascends n (m + 1) (xs ++ r ∷ [])
Ascends-append n m [] r e a = (omega arith, omega arith)
Ascends-append n m (x ∷ xs) r e a = (a.0, Ascends-append (suc x.id) m xs r e a.1)

Ascends-weaken : (k n m : ℕ) (xs : List Row) → k ≤ n → Ascends n m xs → Ascends k m xs
Ascends-weaken k n m [] l a = omega arith
Ascends-weaken k n m (x ∷ xs) l a = (omega arith, a.1)

update_where-Ascends :
    (i n m : ℕ) (f : Row → Row) (xs : List Row)
    → i < n
    → Ascends n m xs
    → update_where (same_id i) f xs ≡ xs
unfolding update_where
update_where-Ascends i n m f [] l a = refl
update_where-Ascends i n m f (x ∷ xs) l a =
    let other : same_id i x ≡ false = ground arith in
    rw (other, update_where-Ascends i (suc x.id) m f xs (omega arith) a.1)

pub find_row-Ascends :
    (key : Text) (n m : ℕ) (xs : List Row) (r : Row)
    → Ascends n m xs
    → find_row key xs ≡ some r
    → n ≤ r.id
unfolding find_row
find_row-Ascends key n m [] r a h = cc
find_row-Ascends key n m (x ∷ xs) r a h = elim (Bool-cases (has_key key x)) [
  | inl e ↦ let same : x ≡ r = ground arith in subst (λ (y : Row). n ≤ y.id) same a.0
  | inr e ↦ let later = find_row-Ascends key (suc x.id) m xs r a.1 (ground arith) in omega arith
]

-- Only the row that was found has its id.
pub Pairwise-same_id :
    (R : Row → Row → Type 0) (key : Text) (n m : ℕ) (f : Row → Row) (xs : List Row) (r : Row)
    → ((x : Row) → R x x)
    → Ascends n m xs
    → find_row key xs ≡ some r
    → R r (f r)
    → Pairwise R xs (update_where (same_id r.id) f xs)
unfolding update_where find_row
Pairwise-same_id R key n m f [] r same a h change = tt
Pairwise-same_id R key n m f (x ∷ xs) r same a h change = elim (Bool-cases (has_key key x)) [
  | inl e ↦
      let found : x ≡ r = ground arith in
      let here : same_id r.id x ≡ true =
        let i : x.id ≡ r.id = ap (λ (y : Row). y.id) found in ground arith in
      let i : r.id < suc x.id =
        let i' : x.id ≡ r.id = ap (λ (y : Row). y.id) found in omega arith in
      rw (here, update_where-Ascends r.id (suc x.id) m f xs i a.1)
        (subst (λ (y : Row). R y (f y)) (sym found) change, Pairwise-refl R xs same)
  | inr e ↦
      let later = find_row-Ascends key (suc x.id) m xs r a.1 (ground arith) in
      let other : same_id r.id x ≡ false = ground arith in
      rw other (same x, Pairwise-same_id R key (suc x.id) m f xs r same a.1 (ground arith) change)
]

pub row_at-Pairwise :
    (R : Row → Row → Type 0) (i : ℕ) (xs ys : List Row) (y : Row)
    → ((x y : Row) → R x y → x.id ≡ y.id)
    → Pairwise R xs ys
    → row_at i ys ≡ some y
    → (x : Row) × (row_at i xs ≡ some x) × R x y
row_at-Pairwise R i [] [] y keep p h = cc
row_at-Pairwise R i [] (z ∷ zs) y keep p h = absurd p
row_at-Pairwise R i (x ∷ xs) [] y keep p h = absurd p
row_at-Pairwise R i (x ∷ xs) (z ∷ zs) y keep p h =
    let e = keep x z p.0 in
    elim (Bool-cases (same_id i z)) [
      | inl t ↦
          let found : z ≡ y = ground arith in
          (x, ground arith, subst (λ (w : Row). R x w) found p.0)
      | inr t ↦
          let (w, g, q) = row_at-Pairwise R i xs zs y keep p.1 (ground arith) in
          let other : same_id i x ≡ false = ground arith in (w, rw (other, g), q)
    ]

pub row_at-append :
    (i : ℕ) (xs : List Row) (r y : Row)
    → i < r.id
    → row_at i (xs ++ r ∷ []) ≡ some y
    → row_at i xs ≡ some y
row_at-append i [] r y l h = ground arith
row_at-append i (x ∷ xs) r y l h = ground (arith, row_at-append i xs r y l)

row_at-Ascends : (i n m : ℕ) (xs : List Row) → i < n → Ascends n m xs → row_at i xs ≡ none
row_at-Ascends i n m [] l a = refl
row_at-Ascends i n m (x ∷ xs) l a = ground (arith, row_at-Ascends i (suc x.id) m xs)

pub Ascends-prune_rows :
    (k : ℕ) (test : Row → Bool) (n m : ℕ) (xs : List Row)
    → Ascends n m xs
    → Ascends n m (prune_rows k test xs)
unfolding prune_rows
Ascends-prune_rows zero test n m xs a = a
Ascends-prune_rows (suc k) test n m [] a = a
Ascends-prune_rows (suc k) test n m (x ∷ xs) a = elim (Bool-cases (test x)) [
  | inl e ↦
      rw e (Ascends-prune_rows k test n m xs (Ascends-weaken n (suc x.id) m xs (omega arith) a.1))
  | inr e ↦ rw e (a.0, Ascends-prune_rows (suc k) test (suc x.id) m xs a.1)
]

pub All-prune_rows :
    (P : Row → Type 0) (k : ℕ) (test : Row → Bool) (xs : List Row)
    → All P xs
    → All P (prune_rows k test xs)
unfolding prune_rows
All-prune_rows P zero test xs a = a
All-prune_rows P (suc k) test [] a = a
All-prune_rows P (suc k) test (x ∷ xs) a = elim (Bool-cases (test x)) [
  | inl e ↦ rw e (All-prune_rows P k test xs a.1)
  | inr e ↦ rw e (a.0, All-prune_rows P (suc k) test xs a.1)
]

pub row_at-prune_rows :
    (i k : ℕ) (test : Row → Bool) (n m : ℕ) (xs : List Row) (y : Row)
    → Ascends n m xs
    → row_at i (prune_rows k test xs) ≡ some y
    → row_at i xs ≡ some y
unfolding prune_rows
row_at-prune_rows i zero test n m xs y a h = h
row_at-prune_rows i (suc k) test n m [] y a h = h
row_at-prune_rows i (suc k) test n m (x ∷ xs) y a h = elim (Bool-cases (test x)) [
  | inl e ↦
      let kept : row_at i (prune_rows k test xs) ≡ some y = ground arith in
      let deeper = row_at-prune_rows i k test (suc x.id) m xs y a.1 kept in
      elim (Bool-cases (same_id i x)) [
        | inl t ↦ let gone = row_at-Ascends i (suc x.id) m xs (ground arith) a.1 in cc
        | inr t ↦ rw t deeper
      ]
  | inr e ↦ elim (Bool-cases (same_id i x)) [
    | inl t ↦ ground arith
    | inr t ↦ rw t (row_at-prune_rows i (suc k) test (suc x.id) m xs y a.1 (ground arith))
  ]
]
