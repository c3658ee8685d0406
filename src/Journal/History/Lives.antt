-- ===== src/Journal/History/Lives.antt =====
-- The life of a row: its states, its receipt, and what never changes.
use zswap_offerfiles_kernel.Prelude.{
  ℕ, suc, ◌≤◌, ◌<◌, ◌≡◌, inl, inr, refl, sym, subst, ◌∙◌, true, false, some, List, [], ◌∷◌, arith,
  Bool-cases,
}
use zswap_offerfiles_kernel.Prelude.Number.{Number}
use zswap_offerfiles_kernel.Journal.{
  LifecycleState, prepared, applied, awaiting_relay, relay_submitted, confirming, reverting,
  settled, reverted, failed, quarantined, is_terminal, is_allowed,
}
use zswap_offerfiles_kernel.Journal.Store.{Row, Journal, created}
use zswap_offerfiles_kernel.Journal.Rows.{
  Ascends, Ascends-le, row_at, row_at-Pairwise, row_at-append, row_at-prune_rows,
}
use zswap_offerfiles_kernel.Journal.Operations.{same_id, is_prunable}
use zswap_offerfiles_kernel.Journal.Operations.Receipts.{
  KeepsReceipt, KeepsReceipt-refl, KeepsReceipt-trans,
}
use zswap_offerfiles_kernel.Journal.Operations.Evolves.{
  AreOptions, Evolves, Evolves-refl, Effect, unchanged, inserted, changed, deleted,
}
use zswap_offerfiles_kernel.Journal.History.{Setting, Step, Run, here, later}
use zswap_offerfiles_kernel.Journal.History.Soundness.{
  IsSound, Step-Effect, Run-IsSound, created-IsSound,
}

-- a way along the allowed transitions
pub data Leads (a : LifecycleState) : LifecycleState → Type 0 where
  stay : Leads a a
  go : {b c : LifecycleState} → Leads a b → is_allowed b c ≡ true → Leads a c

terminal_end : (a b : LifecycleState) → is_terminal a ≡ true → is_allowed a b ≡ false
terminal_end settled b h = refl
terminal_end reverted b h = refl
terminal_end failed b h = refl
terminal_end prepared b h = cc
terminal_end applied b h = cc
terminal_end awaiting_relay b h = cc
terminal_end relay_submitted b h = cc
terminal_end confirming b h = cc
terminal_end reverting b h = cc
terminal_end quarantined b h = cc

-- nothing leads out of a terminal state
pub Leads-terminal : {a b : LifecycleState} → is_terminal a ≡ true → Leads a b → b ≡ a
Leads-terminal h stay = refl
Leads-terminal {a} h (go {b} {c} l legal) =
    let same : b ≡ a = Leads-terminal h l in
    let stuck = terminal_end a c h in
    let legal' : is_allowed a c ≡ true = subst (λ x. is_allowed x c ≡ true) same legal in cc

-- what a row and a later state of it have in common
pub record Continues (r r' : Row) : Type 0 where
  pub identity : r'.identity ≡ r.identity
  pub state : Leads r.lifecycle_state r'.lifecycle_state
  pub receipt : KeepsReceipt r.receipt r'.receipt

Continues-Evolves : (x y z : Row) → Continues x y → Evolves y z → Continues x z
Continues-Evolves x y z c e = record {
  identity = e.identity ∙ c.identity;
  state = elim e.state [
    | inl same ↦ subst (λ a. Leads x.lifecycle_state a) (sym same) c.state
    | inr legal ↦ go c.state legal
  ];
  receipt = KeepsReceipt-trans x.receipt y.receipt z.receipt c.receipt e.receipt;
}

Continues-refl : (r : Row) → Continues r r
Continues-refl r = record { identity = refl; state = stay; receipt = KeepsReceipt-refl r.receipt }

-- the row that a row was before
Effect-origin :
    (s t : Journal) (i : ℕ) (r' : Row)
    → Effect s t
    → Ascends 0 s.next_id s.rows
    → row_at i t.rows ≡ some r'
    → i < s.next_id
    → (r : Row) × (row_at i s.rows ≡ some r) × Evolves r r'
Effect-origin s t i r' (unchanged e) asc h l =
    (r', subst (λ (u : Journal). row_at i u.rows ≡ some r') e h, Evolves-refl r')
Effect-origin s t i r' (inserted r new e) asc h l =
    let h' = subst (λ (u : Journal). row_at i u.rows ≡ some r') e h in
    let below : i < r.id = rw new.id l in
    (r', row_at-append i s.rows r r' below h', Evolves-refl r')
Effect-origin s t i r' (changed p next dust) asc h l =
    row_at-Pairwise Evolves i s.rows t.rows r' (λ x y e. e.id) p h
Effect-origin s t i r' (deleted now e) asc h l =
    let h' = subst (λ (u : Journal). row_at i u.rows ≡ some r') e h in
    (
      r',
      row_at-prune_rows i 1000 (is_prunable now s.dust) 0 s.next_id s.rows r' asc h',
      Evolves-refl r',
    )

Effect-next_id : (s t : Journal) → Effect s t → s.next_id ≤ t.next_id
Effect-next_id s t (unchanged e) = rw e (omega arith)
Effect-next_id s t (inserted r new e) = rw e (omega arith)
Effect-next_id s t (changed p next dust) = rw next (omega arith)
Effect-next_id s t (deleted now e) = rw e (omega arith)

Step-origin :
    {w : Setting} {now : Number} {s t : Journal} (i : ℕ) (r' : Row)
    → AreOptions w.options
    → IsSound s
    → Step w now s t
    → row_at i t.rows ≡ some r'
    → i < s.next_id
    → (r : Row) × (row_at i s.rows ≡ some r) × Evolves r r'
Step-origin {s} {t} i r' o sound st h l = elim (Step-Effect o sound.ascends st) [
  | inl effect ↦ Effect-origin s t i r' effect sound.ascends h l
  | inr same ↦ (r', subst (λ rs. row_at i rs ≡ some r') same.0 h, Evolves-refl r')
]

Step-next_id :
    {w : Setting} {now : Number} {s t : Journal}
    → AreOptions w.options
    → IsSound s
    → Step w now s t
    → s.next_id ≤ t.next_id
Step-next_id {s} {t} o sound st = elim (Step-Effect o sound.ascends st) [
  | inl effect ↦ Effect-next_id s t effect
  | inr same ↦ rw same.1 (omega arith)
]

Run-next_id :
    {w : Setting} {s t : Journal}
    → AreOptions w.options
    → IsSound s
    → Run w s t
    → s.next_id ≤ t.next_id
Run-next_id o sound here = omega arith
Run-next_id o sound (later r st) =
    omega (arith, Run-next_id o sound r, Step-next_id o (Run-IsSound o r sound) st)

Run-origin :
    {w : Setting} {s t : Journal}
    → AreOptions w.options
    → IsSound s
    → Run w s t
    → (i : ℕ) (r' : Row) → row_at i t.rows ≡ some r'
    → i < s.next_id
    → (r : Row) × (row_at i s.rows ≡ some r) × Continues r r'
Run-origin o sound here i r' h l = (r', h, Continues-refl r')
Run-origin o sound (later r st) i r' h l =
    let (y, g, e) =
      Step-origin i r' o (Run-IsSound o r sound) st h (omega (arith, Run-next_id o sound r)) in
    let (x, f, c) = Run-origin o sound r i y g l in (x, f, Continues-Evolves x y r' c e)

row_at-bound : (i n m : ℕ) (xs : List Row) (r : Row) → Ascends n m xs → row_at i xs ≡ some r → i < m
row_at-bound i n m [] r a h = cc
row_at-bound i n m (x ∷ xs) r a h = elim (Bool-cases (same_id i x)) [
  | inl e ↦ let top = Ascends-le (suc x.id) m xs a.1 in ground arith
  | inr e ↦ row_at-bound i (suc x.id) m xs r a.1 (ground arith)
]

-- With options that `normalizeOptions` lets through, from any journal that the operations reach,
-- whatever they do next and whatever the clock reads at each call: a row that is still there has its
-- identity, its state lies on a way of allowed transitions from the state it had, so that a terminal
-- state stays, and each receipt field that it had is as it was.
pub row_lives :
    {w : Setting} {s t : Journal} (i : ℕ) (r r' : Row)
    → AreOptions w.options
    → Run w created s
    → Run w s t
    → row_at i s.rows ≡ some r
    → row_at i t.rows ≡ some r'
    → (r'.identity ≡ r.identity)
      × Leads r.lifecycle_state r'.lifecycle_state
      × (is_terminal r.lifecycle_state ≡ true → r'.lifecycle_state ≡ r.lifecycle_state)
      × KeepsReceipt r.receipt r'.receipt
row_lives {s} i r r' o before after h h' =
    let sound = Run-IsSound o before created-IsSound in
    let (x, g, c) =
      Run-origin o sound after i r' h' (row_at-bound i 0 s.next_id s.rows r sound.ascends h) in
    let same : x ≡ r = cc in
    let c' = subst (λ y. Continues y r') same c in
    (c'.identity, c'.state, λ end. Leads-terminal end c'.state, c'.receipt)
