-- ===== src/Balance/Canonical.antt =====
-- Canonical rows: what the accounting returns is canonical, and canonicalBalances leaves canonical
-- rows as they are.
use zswap_offerfiles_kernel.Prelude.{
  ◌≡◌, refl, true, false, ◌||◌, List, [], ◌∷◌, ◌++◌, map, arith, All, ok, ◌∙◌, ap, append-nil,
  append_assoc, >>=-eq-ok,
}
use zswap_offerfiles_kernel.Prelude.Int.{pos, ◌+ℤ◌, ◌-ℤ◌, ◌≤ℤ◌, int_laws, zero_+ℤ}
use zswap_offerfiles_kernel.Prelude.Text.{
  Text, eq_text_iff, to_lower, is_hex64, lt_text_irrefl, lt_text_trans, to_lower_idem,
  to_lower-is_hex64,
}
use zswap_offerfiles_kernel.Prelude.Map.{
  Dict, lookup, has, insert, Distinct, insert-Distinct, lookup-none_of_has,
}
use zswap_offerfiles_kernel.Balance.{
  Leg, Side, on_gives, on_wants, Source, Totals, TokenBalance, no_totals, current, bump,
  canonical_token, add_leg, add_legs, add_sources, account, add_balance, add_balances,
  canonical_balances, is_inconsistent, place, sort_entries, row, rows_of,
}
use zswap_offerfiles_kernel.Balance.Rows.{Above, IsSorted, rows_of-IsSorted}
use zswap_offerfiles_kernel.Balance.Accounting.{
  IsLeg, add_sources_steps, add_sources-Distinct, add_leg_valid,
}

abbrev pub IsToken : Text → Type 0
IsToken t = (is_hex64 t ≡ true) × (to_lower t ≡ t)

-- A row that canonicalBalances would write.
abbrev pub IsRow : TokenBalance → Type 0
IsRow r = IsToken r.token × (pos 0 ≤ℤ r.gives) × (pos 0 ≤ℤ r.wants) × (r.net ≡ r.gives -ℤ r.wants)

pub record IsCanonical (rows : List TokenBalance) : Type 0 where
  pub each : All IsRow rows
  pub sorted : IsSorted rows

abbrev pub IsEntry : Text × Totals → Type 0
IsEntry (k, v) = IsToken k × (pos 0 ≤ℤ v.gives) × (pos 0 ≤ℤ v.wants)

pub insert-IsEntry :
    (k : Text) (v : Totals) (m : Dict Totals)
    → IsEntry (k, v)
    → All IsEntry m
    → All IsEntry (insert k v m)
unfolding insert
insert-IsEntry k v [] h a = (h, tt)
insert-IsEntry k v (e ∷ m) h a = ground (arith, insert-IsEntry k v m h a.1)

pub lookup-IsEntry :
    (k : Text) (m : Dict Totals)
    → All IsEntry m
    → (pos 0 ≤ℤ (current k m).gives) × (pos 0 ≤ℤ (current k m).wants)
unfolding current lookup
lookup-IsEntry k [] a = omega arith
lookup-IsEntry k (e ∷ m) a = ground (arith, lookup-IsEntry k m a.1)

add_leg-insert :
    (side : Side) (m m' : Dict Totals) (l : Leg)
    → add_leg side m l ≡ ok m'
    → m' ≡ insert (to_lower l.token) (bump side l.amount (current (to_lower l.token) m)) m
unfolding add_leg canonical_token
add_leg-insert side m m' l h = ground arith

bump-IsEntry :
    (side : Side) (l : Leg) (m : Dict Totals)
    → IsLeg l
    → All IsEntry m
    → IsEntry (to_lower l.token, bump side l.amount (current (to_lower l.token) m))
bump-IsEntry on_gives l m h a =
    let (g, w) = lookup-IsEntry (to_lower l.token) m a in
    ((to_lower-is_hex64 l.token h.0, to_lower_idem l.token), omega int_laws, w)
bump-IsEntry on_wants l m h a =
    let (g, w) = lookup-IsEntry (to_lower l.token) m a in
    ((to_lower-is_hex64 l.token h.0, to_lower_idem l.token), g, omega int_laws)

add_leg-IsEntry :
    (side : Side) (m m' : Dict Totals) (l : Leg)
    → add_leg side m l ≡ ok m'
    → All IsEntry m
    → All IsEntry m'
add_leg-IsEntry side m m' l h a =
    rw (add_leg-insert side m m' l h)
      (insert-IsEntry _ _ m (bump-IsEntry side l m (add_leg_valid side m m' l h) a) a)

add_legs-IsEntry :
    (side : Side) (ls : List Leg) (m m' : Dict Totals)
    → add_legs side ls m ≡ ok m'
    → All IsEntry m
    → All IsEntry m'
unfolding add_legs
add_legs-IsEntry side [] m m' h a = let e : m ≡ m' = cc in rw (← e) a
add_legs-IsEntry side (l ∷ ls) m m' h a =
    let (m1, e, k) = >>=-eq-ok (add_leg side m l) _ h in
    add_legs-IsEntry side ls m1 m' k (add_leg-IsEntry side m m1 l e a)

add_sources-IsEntry :
    (ss : List Source) (m m' : Dict Totals)
    → add_sources ss m ≡ ok m'
    → All IsEntry m
    → All IsEntry m'
add_sources-IsEntry [] m m' h a = let e : m ≡ m' = unfold add_sources in cc in rw (← e) a
add_sources-IsEntry (s ∷ ss) m m' h a =
    let (x, y, e, f, l) = add_sources_steps s ss m m' h in
    add_sources-IsEntry ss y m' l
      (add_legs-IsEntry on_wants s.wants x y f (add_legs-IsEntry on_gives s.gives m x e a))

place-IsEntry :
    (e : Text × Totals) (m : Dict Totals) → IsEntry e → All IsEntry m → All IsEntry (place e m)
unfolding place
place-IsEntry e [] h a = (h, tt)
place-IsEntry e (f ∷ m) h a = ground (arith, place-IsEntry e m h a.1)

sort_entries-IsEntry : (m : Dict Totals) → All IsEntry m → All IsEntry (sort_entries m)
unfolding sort_entries
sort_entries-IsEntry [] a = tt
sort_entries-IsEntry (e ∷ m) a = place-IsEntry e (sort_entries m) a.0 (sort_entries-IsEntry m a.1)

map-row-IsRow : (m : Dict Totals) → All IsEntry m → All IsRow (map row m)
map-row-IsRow [] a = tt
map-row-IsRow (e ∷ m) a = ((a.0.0, a.0.1, a.0.2, refl), map-row-IsRow m a.1)

rows_of-IsCanonical : (m : Dict Totals) → All IsEntry m → Distinct m → IsCanonical (rows_of m)
unfolding rows_of
rows_of-IsCanonical m a d = record {
  each = map-row-IsRow (sort_entries m) (sort_entries-IsEntry m a);
  sorted = rows_of-IsSorted m d;
}

-- What the accounting of some sources returns is canonical.
pub account-IsCanonical :
    (sources : List Source) (rows : List TokenBalance)
    → account sources ≡ ok rows
    → IsCanonical rows
unfolding account
account-IsCanonical sources rows h =
    let (m, e, k) = >>=-eq-ok (add_sources sources []) _ h in
    let same : rows_of m ≡ rows = cc in
    rw (← same) (
      rows_of-IsCanonical m (add_sources-IsEntry sources [] m e tt)
        (add_sources-Distinct sources [] m e tt))

add_balance-IsEntry :
    (b : TokenBalance) (m m' : Dict Totals)
    → add_balance m b ≡ ok m'
    → All IsEntry m
    → Distinct m
    → All IsEntry m' × Distinct m'
unfolding add_balance canonical_token is_inconsistent
add_balance-IsEntry b m m' h a d =
    let k = to_lower b.token in
    let v : Totals = record {
      gives = (current k m).gives +ℤ b.gives;
      wants = (current k m).wants +ℤ b.wants;
    } in
    let same : (m' ≡ insert k v m)
        × (is_hex64 b.token ≡ true)
        × (pos 0 ≤ℤ b.gives)
        × (pos 0 ≤ℤ b.wants) =
      (ground arith, ground arith, ground arith, ground arith) in
    let (g, w) = lookup-IsEntry k m a in
    rw same.0 (
      insert-IsEntry k v m
          (
            (to_lower-is_hex64 b.token same.1, to_lower_idem b.token),
            omega int_laws,
            omega int_laws,
          )
          a,
      insert-Distinct k v m d,
    )

add_balances-IsEntry :
    (bs : List TokenBalance) (m m' : Dict Totals)
    → add_balances bs m ≡ ok m'
    → All IsEntry m
    → Distinct m
    → All IsEntry m' × Distinct m'
unfolding add_balances
add_balances-IsEntry [] m m' h a d = let e : m ≡ m' = cc in rw (← e) (a, d)
add_balances-IsEntry (b ∷ bs) m m' h a d =
    let (m1, e, k) = >>=-eq-ok (add_balance m b) _ h in
    let (a1, d1) = add_balance-IsEntry b m m1 e a d in add_balances-IsEntry bs m1 m' k a1 d1

-- What canonicalBalances returns is canonical.
pub canonical_balances-IsCanonical :
    (balances rows : List TokenBalance) → canonical_balances balances ≡ ok rows → IsCanonical rows
unfolding canonical_balances
canonical_balances-IsCanonical balances rows h =
    let (m, e, k) = >>=-eq-ok (add_balances balances []) _ h in
    let same : rows_of m ≡ rows = cc in
    let (a, d) = add_balances-IsEntry balances [] m e tt tt in
    rw (← same) (rows_of-IsCanonical m a d)

-- The map that canonicalBalances builds from canonical rows.
abbrev entry : TokenBalance → Text × Totals
entry r = (r.token, record { gives = r.gives; wants = r.wants })

insert_new :
    (k : Text) (v : Totals) (m : Dict Totals) → has k m ≡ false → insert k v m ≡ m ++ (k, v) ∷ []
unfolding has insert
insert_new k v [] h = refl
insert_new k v (e ∷ m) h = ground (arith, insert_new k v m)

has-append : (k : Text) (m n : Dict Totals) → has k (m ++ n) ≡ (has k m || has k n)
unfolding has
has-append k [] n = refl
has-append k (e ∷ m) n = ground (arith, has-append k m n)

consistent : (r : TokenBalance) → IsRow r → is_inconsistent r ≡ false
unfolding is_inconsistent
consistent r h = rw h.3 (ground arith)

current_new : (k : Text) (m : Dict Totals) → has k m ≡ false → current k m ≡ no_totals
unfolding current
current_new k m h = rw (lookup-none_of_has k m h, current)

entry_new :
    (m : Dict Totals) (r : TokenBalance)
    → has r.token m ≡ false
    → insert r.token
        (record {
          gives = (current r.token m).gives +ℤ r.gives;
          wants = (current r.token m).wants +ℤ r.wants;
        })
        m
      ≡ m ++ entry r ∷ []
entry_new m r n =
    rw (current_new r.token m n, zero_+ℤ r.gives, zero_+ℤ r.wants) (insert_new r.token _ m n)

add_balance_new :
    (m : Dict Totals) (r : TokenBalance)
    → IsRow r
    → has r.token m ≡ false
    → add_balance m r ≡ ok (m ++ entry r ∷ [])
unfolding add_balance canonical_token
add_balance_new m r h n = ground (arith, consistent r h, entry_new m r n)

-- none of the tokens is a key of the map
abbrev Fresh : Dict Totals → List TokenBalance → Type 0
Fresh m = All (λ r. has r.token m ≡ false)

Fresh-append :
    (m : Dict Totals) (r : TokenBalance) (rs : List TokenBalance)
    → Above r.token rs
    → Fresh m rs
    → Fresh (m ++ entry r ∷ []) rs
Fresh-append m r [] a f = tt
Fresh-append m r (q ∷ rs) a f = (first, Fresh-append m r rs a.1 f.1)
  where
    first : has q.token (m ++ entry r ∷ []) ≡ false
    first =
        rw (has-append q.token m (entry r ∷ []), f.0)
          (unfold has in ground (arith, eq_text_iff r.token q.token, lt_text_irrefl q.token, a.0))

add_balances_new :
    (rs : List TokenBalance) (m : Dict Totals)
    → All IsRow rs
    → IsSorted rs
    → Fresh m rs
    → add_balances rs m ≡ ok (m ++ map entry rs)
unfolding add_balances
add_balances_new [] m h s f = rw append-nil
add_balances_new (r ∷ rs) m h s f = rw (add_balance_new m r h.0 f.0) (
    add_balances_new rs (m ++ entry r ∷ []) h.1 s.1 (Fresh-append m r rs s.0 f.1)
    ∙ ap ok (append_assoc m (entry r ∷ []) (map entry rs)))

place_first :
    (r : TokenBalance) (rs : List TokenBalance)
    → Above r.token rs
    → place (entry r) (map entry rs) ≡ entry r ∷ map entry rs
unfolding place
place_first r [] a = refl
place_first r (q ∷ rs) a =
    ground (arith, lt_text_trans q.token r.token q.token, lt_text_irrefl q.token, a.0)

sort_entries_sorted :
    (rs : List TokenBalance) → IsSorted rs → sort_entries (map entry rs) ≡ map entry rs
unfolding sort_entries
sort_entries_sorted [] s = refl
sort_entries_sorted (r ∷ rs) s = rw (sort_entries_sorted rs s.1) (place_first r rs s.0)

map-row-entry : (rs : List TokenBalance) → All IsRow rs → map row (map entry rs) ≡ rs
map-row-entry [] h = refl
map-row-entry (r ∷ rs) h = ground (arith, map-row-entry rs h.1)

-- Canonical rows pass canonicalBalances unchanged.
pub canonical_balances_fixed :
    (rows : List TokenBalance) → IsCanonical rows → canonical_balances rows ≡ ok rows
unfolding canonical_balances rows_of
canonical_balances_fixed rows c =
    rw (add_balances_new rows [] c.each c.sorted (fresh rows), sort_entries_sorted rows c.sorted)
      (ap ok (map-row-entry rows c.each))
  where
    fresh : (rs : List TokenBalance) → Fresh [] rs
    fresh [] = tt
    fresh (r ∷ rs) = (unfold has in refl, fresh rs)
