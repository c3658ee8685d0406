-- ===== src/Journal/History/Soundness.antt =====
-- Every row of a journal that its operations reach is one that `hydrate` lets through.
use zswap_offerfiles_kernel.Prelude.{
  zero, suc, ℕ, ◌≡◌, ◌⊎◌, inl, inr, refl, ap, Bool, false, none, List, [], ◌∷◌, ◌++◌, All,
  All-append, arith, Bool-cases, ok,
}
use zswap_offerfiles_kernel.Prelude.Text.{Text, eq_text, eq_text_iff}
use zswap_offerfiles_kernel.Prelude.Number.{Number}
use zswap_offerfiles_kernel.Journal.Store.{Row, Journal, created, find_row, hydrate}
use zswap_offerfiles_kernel.Journal.Readable.{IsReadable, hydrate-IsReadable}
use zswap_offerfiles_kernel.Journal.Rows.{
  Ascends, Pairwise, All-Pairwise, Ascends-Pairwise, Ascends-append, Ascends-prune_rows,
  All-prune_rows,
}
use zswap_offerfiles_kernel.Journal.Operations.{prune_rows, is_prunable}
use zswap_offerfiles_kernel.Journal.Operations.Evolves.{
  AreOptions, Evolves, Effect, unchanged, inserted, changed, deleted,
}
use zswap_offerfiles_kernel.Journal.Operations.Effects.{
  create_prepared-Effect, transition-Effect, record_receipt-Effect, prune_terminal-Effect,
}
use zswap_offerfiles_kernel.Journal.Dust.Outcomes.{
  SameRows, reserve_dust-Reserves, transition_dust-Spares, prune_dust-Spares,
}
use zswap_offerfiles_kernel.Journal.History.{
  Setting, Step, creates, transitions, records, prunes, reserves, moves, prunes_dust, closes, close,
  Run, here, later,
}

-- no two rows have a key
abbrev pub DistinctKeys : List Row → Type 0
DistinctKeys [] = Unit {0}
DistinctKeys (r ∷ rs) = (find_row r.identity.operation_key rs ≡ none) × DistinctKeys rs

pub record IsSound (s : Journal) : Type 0 where
  pub ascends : Ascends 0 s.next_id s.rows
  pub keys : DistinctKeys s.rows
  pub readable : All IsReadable s.rows

find_row-Pairwise :
    (key : Text) (xs ys : List Row)
    → Pairwise Evolves xs ys
    → find_row key xs ≡ none
    → find_row key ys ≡ none
unfolding find_row
find_row-Pairwise key [] [] p h = refl
find_row-Pairwise key [] (y ∷ ys) p h = absurd p
find_row-Pairwise key (x ∷ xs) [] p h = absurd p
find_row-Pairwise key (x ∷ xs) (y ∷ ys) p h =
    let same : y.identity.operation_key ≡ x.identity.operation_key =
      ap (λ i. i.operation_key) p.0.identity in
    ground (arith, find_row-Pairwise key xs ys p.1)

DistinctKeys-Pairwise :
    (xs ys : List Row) → Pairwise Evolves xs ys → DistinctKeys xs → DistinctKeys ys
DistinctKeys-Pairwise [] [] p d = tt
DistinctKeys-Pairwise [] (y ∷ ys) p d = absurd p
DistinctKeys-Pairwise (x ∷ xs) [] p d = absurd p
DistinctKeys-Pairwise (x ∷ xs) (y ∷ ys) p d =
    let same : y.identity.operation_key ≡ x.identity.operation_key =
      ap (λ i. i.operation_key) p.0.identity in
    (
      rw same (find_row-Pairwise x.identity.operation_key xs ys p.1 d.0),
      DistinctKeys-Pairwise xs ys p.1 d.1,
    )

find_row-append :
    (key : Text) (xs : List Row) (r : Row)
    → find_row key xs ≡ none
    → eq_text r.identity.operation_key key ≡ false
    → find_row key (xs ++ r ∷ []) ≡ none
unfolding find_row
find_row-append key [] r h e = rw e
find_row-append key (x ∷ xs) r h e = ground (arith, find_row-append key xs r)

DistinctKeys-append :
    (xs : List Row) (r : Row)
    → DistinctKeys xs
    → find_row r.identity.operation_key xs ≡ none
    → DistinctKeys (xs ++ r ∷ [])
unfolding find_row
DistinctKeys-append [] r d h = (refl, tt)
DistinctKeys-append (x ∷ xs) r d h =
    let k = r.identity.operation_key in
    let j = x.identity.operation_key in
    (
      find_row-append j xs r d.0 (ground (arith, eq_text_iff j k, eq_text_iff k j)),
      DistinctKeys-append xs r d.1 (ground arith),
    )

find_row-prune_rows :
    (key : Text) (n : ℕ) (test : Row → Bool) (xs : List Row)
    → find_row key xs ≡ none
    → find_row key (prune_rows n test xs) ≡ none
unfolding find_row prune_rows
find_row-prune_rows key zero test xs h = h
find_row-prune_rows key (suc n) test [] h = h
find_row-prune_rows key (suc n) test (x ∷ xs) h =
    ground (arith, find_row-prune_rows key n test xs, find_row-prune_rows key (suc n) test xs)

DistinctKeys-prune_rows :
    (n : ℕ) (test : Row → Bool) (xs : List Row)
    → DistinctKeys xs
    → DistinctKeys (prune_rows n test xs)
unfolding prune_rows
DistinctKeys-prune_rows zero test xs d = d
DistinctKeys-prune_rows (suc n) test [] d = d
DistinctKeys-prune_rows (suc n) test (x ∷ xs) d = elim (Bool-cases (test x)) [
  | inl e ↦ rw e (DistinctKeys-prune_rows n test xs d.1)
  | inr e ↦ rw e (
    find_row-prune_rows x.identity.operation_key (suc n) test xs d.0,
    DistinctKeys-prune_rows (suc n) test xs d.1,
  )
]

Effect-IsSound : (s t : Journal) → Effect s t → IsSound s → IsSound t
Effect-IsSound s t (unchanged e) h = rw e h
Effect-IsSound s t (inserted r new e) h = rw e (record {
  ascends = Ascends-append 0 s.next_id s.rows r new.id h.ascends;
  keys = DistinctKeys-append s.rows r h.keys new.key;
  readable = All-append IsReadable s.rows (r ∷ []) h.readable (new.readable, tt);
})
Effect-IsSound s t (changed p next dust) h = record {
  ascends =
      rw next (Ascends-Pairwise Evolves 0 s.next_id s.rows t.rows (λ x y e. e.id) p h.ascends);
  keys = DistinctKeys-Pairwise s.rows t.rows p h.keys;
  readable = All-Pairwise Evolves IsReadable s.rows t.rows (λ x y e. e.readable) p h.readable;
}
Effect-IsSound s t (deleted now e) h = rw e (record {
  ascends = Ascends-prune_rows 1000 (is_prunable now s.dust) 0 s.next_id s.rows h.ascends;
  keys = DistinctKeys-prune_rows 1000 (is_prunable now s.dust) s.rows h.keys;
  readable = All-prune_rows IsReadable 1000 (is_prunable now s.dust) s.rows h.readable;
})

-- What a step does to the rows.
pub Step-Effect :
    {w : Setting} {now : Number} {s t : Journal}
    → AreOptions w.options
    → Ascends 0 s.next_id s.rows
    → Step w now s t
    → Effect s t ⊎ SameRows s t
Step-Effect {w} {now} o asc (creates s input) =
    inl (create_prepared-Effect w.options w.bytes_used input now s o)
Step-Effect {w} {now} o asc (transitions s key expected next patch) =
    inl (transition-Effect w.options w.bytes_used key expected next patch now s o asc)
Step-Effect {w} {now} o asc (records s key receipt) =
    inl (record_receipt-Effect w.options w.bytes_used key receipt now s asc)
Step-Effect {w} o asc (prunes s t at count h) =
    inl (prune_terminal-Effect w.options w.bytes_used at s t count h)
Step-Effect {w} {now} o asc (reserves s t request result h) =
    inr (elim (reserve_dust-Reserves w.options w.bytes_used request now s t result h) [
      | inl same ↦ rw same (refl, refl)
      | inr new ↦ rw new.new (refl, refl)
    ])
Step-Effect {w} {now} o asc (moves s t key next h) =
    inr (transition_dust-Spares now key next now s t h).rows
Step-Effect {w} {now} o asc (prunes_dust s t window at h) =
    inr (prune_dust-Spares now now window at s t h).rows
Step-Effect o asc (closes s) = unfold close in inr (refl, refl)

pub SameRows-IsSound : (s t : Journal) → SameRows s t → IsSound s → IsSound t
SameRows-IsSound s t e h = record {
  ascends = rw (e.0, e.1) h.ascends;
  keys = rw e.0 h.keys;
  readable = rw e.0 h.readable;
}

pub Step-IsSound :
    {w : Setting} {now : Number} {s t : Journal}
    → AreOptions w.options
    → Step w now s t
    → IsSound s
    → IsSound t
Step-IsSound {s} {t} o st h = elim (Step-Effect o h.ascends st) [
  | inl effect ↦ Effect-IsSound s t effect h
  | inr same ↦ SameRows-IsSound s t same h
]

pub Run-IsSound :
    {w : Setting} {s t : Journal} → AreOptions w.options → Run w s t → IsSound s → IsSound t
Run-IsSound o here h = h
Run-IsSound o (later r st) h = Step-IsSound o st (Run-IsSound o r h)

pub created-IsSound : IsSound created
created-IsSound = record { ascends = omega arith; keys = tt; readable = tt }

-- With options that `normalizeOptions` lets through, in every journal that the operations reach from
-- an empty one, whatever the clock reads at each call, the ids ascend, no two rows have an operation key, and every row passes the checks
-- with which it is read back.
pub journal_readable :
    {w : Setting} {t : Journal}
    → AreOptions w.options
    → Run w created t
    → Ascends 0 t.next_id t.rows × DistinctKeys t.rows × All (λ r. hydrate r ≡ ok tt) t.rows
journal_readable {t} o r =
    let sound = Run-IsSound o r created-IsSound in
    (sound.ascends, sound.keys, all_hydrate t.rows sound.readable)
  where
    all_hydrate : (rs : List Row) → All IsReadable rs → All (λ r. hydrate r ≡ ok tt) rs
    all_hydrate [] a = tt
    all_hydrate (r ∷ rs) a = (hydrate-IsReadable r a.0, all_hydrate rs a.1)
