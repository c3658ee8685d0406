-- ===== src/Journal/History/Ledger.antt =====
-- An account of the DUST that is kept beside the journal, from the calls and what they answer, in which
-- no line is ever deleted, and how the rows of the journal stand in it.
pub mod Calls
use zswap_offerfiles_kernel.Prelude.{
  ℕ, ◌≡◌, ◌⊎◌, inl, inr, refl, sym, subst, ap, Bool, true, false, not, ◌&&◌, Option, none, some,
  List, [], ◌∷◌, ◌++◌, if◌then◌else◌, keep_if, arith, Bool-cases, Option-cases, ok, ◌>>◌, >>-eq-ok,
}
use zswap_offerfiles_kernel.Prelude.Int.{
  ℤ, pos, ◌+ℤ◌, ◌-ℤ◌, ◌≤ℤ◌, ltb_ℤ, int_laws, zero_+ℤ, -ℤ_parts,
}
use zswap_offerfiles_kernel.Prelude.Text.{Text, codes, eq_text}
use zswap_offerfiles_kernel.Prelude.Number.{Number, integer, inexact}
use zswap_offerfiles_kernel.Journal.{at_least, le_num, require_text, require_safe_integer}
use zswap_offerfiles_kernel.Journal.Store.{
  DustState, reserved, spent, released, DustRow, Journal, Options, assert_open, check_clock,
  find_row, assert_within_ceilings,
}
use zswap_offerfiles_kernel.Journal.Dust.{
  DustRequest, DustResult, accepted, over_job, over_window, cutoff, spent_after, counts,
  sum_counted, usage_at, find_dust, is_settlement_of, new_dust, with_dust, move_dust, eq_dust_state,
  is_held, move_held, hydrate_dust, is_replay, require_positive, transition_held, transition_dust,
  is_kept, prune_dust, reserve_new, reserve_found, reserve_dust,
}
use zswap_offerfiles_kernel.Journal.Dust.Budget.{eq_reserved}

-- What became of a reservation.
pub data Fate : Type 0 where
  outstanding freed : Fate
  spent_then : Number → Fate

pub record Line : Type 0 where
  pub key : Text
  pub amount : ℤ
  pub fate : Fate

-- An accepted reservation is a new line, unless it repeats one that the journal still has.
abbrev pub booked : DustRequest → Option DustRow → DustResult → List Line → List Line
booked r (some d) result ls = ls
booked r none (accepted d usage) ls =
    ls ++ record { key = r.operation_key; amount = r.amount; fate = outstanding } ∷ []
booked r none (over_job usage) ls = ls
booked r none (over_window usage) ls = ls

abbrev pub settle_fate : Fate → DustState → Number → Fate
settle_fate outstanding reserved now = outstanding
settle_fate outstanding spent now = spent_then now
settle_fate outstanding released now = freed
settle_fate freed next now = freed
settle_fate (spent_then t) next now = spent_then t

abbrev pub settle_line : Text → DustState → Number → Line → Line
settle_line key next now l =
    if eq_text l.key key then record l { fate = settle_fate l.fate next now } else l

abbrev pub settle : Text → DustState → Number → List Line → List Line
settle key next now [] = []
settle key next now (l ∷ ls) = settle_line key next now l ∷ settle key next now ls

-- A reservation that is held is spent or released.
abbrev pub moved : Text → DustState → Number → Option DustRow → List Line → List Line
moved key next now none ls = ls
moved key next now (some d) ls =
    if eq_dust_state d.state reserved then settle key next now ls else ls

-- outstanding, or spent after the start of the window; a time is after 0
abbrev pub is_counted : ℤ → ℤ → Fate → Bool
is_counted window now outstanding = true
is_counted window now freed = false
is_counted window now (spent_then inexact) = false
is_counted window now (spent_then (integer t)) = ltb_ℤ (pos 0) t && ltb_ℤ (now -ℤ window) t

abbrev pub exposure : ℤ → ℤ → List Line → ℤ
exposure window now [] = pos 0
exposure window now (l ∷ ls) =
    (if is_counted window now l.fate then l.amount else pos 0) +ℤ exposure window now ls

abbrev pub fate_of : DustState → Option Number → Fate
fate_of reserved at = outstanding
fate_of spent none = freed
fate_of spent (some t) = spent_then t
fate_of released at = freed

abbrev pub line_of : DustRow → Line
line_of d = record {
  key = d.operation_key;
  amount = d.amount;
  fate = fate_of d.state d.spent_at_ms;
}

-- The rows are the lines, less some that do not count.
pub data Tracks (window now : ℤ) : List DustRow → List Line → Type 0 where
  empty : Tracks window now [] []
  keep :
      {ds : List DustRow} {ls : List Line} (d : DustRow) (l : Line)
      → l ≡ line_of d
      → Tracks window now ds ls
      → Tracks window now (d ∷ ds) (l ∷ ls)
  drop :
      {ds : List DustRow} {ls : List Line} (l : Line)
      → is_counted window now l.fate ≡ false
      → Tracks window now ds ls
      → Tracks window now ds (l ∷ ls)

is_counted-counts :
    (window now : ℤ) (state : DustState) (at : Option Number)
    → is_counted window now (fate_of state at)
      ≡ counts (cutoff (integer window) (integer now)) state at
unfolding counts spent_after cutoff
is_counted-counts window now reserved at = refl
is_counted-counts window now spent none = refl
is_counted-counts window now released at = refl
is_counted-counts window now spent (some inexact) =
    elim (Bool-cases (ltb_ℤ (pos 0) (now -ℤ window))) [ inl e ↦ rw e refl | inr e ↦ rw e refl ]
is_counted-counts window now spent (some (integer t)) =
    elim (Bool-cases (ltb_ℤ (pos 0) (now -ℤ window))) [
      | inl e ↦ rw e (ground arith)
      | inr e ↦ rw e (ground arith)
    ]

pub exposure-Tracks :
    (window now : ℤ) (ds : List DustRow) (ls : List Line)
    → Tracks window now ds ls
    → exposure window now ls ≡ sum_counted (cutoff (integer window) (integer now)) ds
unfolding sum_counted
exposure-Tracks window now _ _ empty = refl
exposure-Tracks window now _ _ (keep {ds} {ls} d l e t) =
    rw (e, exposure-Tracks window now ds ls t, is_counted-counts window now d.state d.spent_at_ms)
      (elim (Bool-cases (counts (cutoff (integer window) (integer now)) d.state d.spent_at_ms)) [
        | inl c ↦ rw c refl
        | inr c ↦ rw c (zero_+ℤ _)
      ])
exposure-Tracks window now _ _ (drop {ds} {ls} l c t) =
    rw (c, exposure-Tracks window now ds ls t) (zero_+ℤ _)

is_counted_later :
    (window m n : ℤ) (f : Fate)
    → m ≤ℤ n
    → is_counted window m f ≡ false
    → is_counted window n f ≡ false
is_counted_later window m n outstanding h c = c
is_counted_later window m n freed h c = c
is_counted_later window m n (spent_then inexact) h c = c
is_counted_later window m n (spent_then (integer t)) h c =
    ground (arith, -ℤ_parts m window, -ℤ_parts n window)

pub Tracks_later :
    {window m n : ℤ} {ds : List DustRow} {ls : List Line}
    → m ≤ℤ n
    → Tracks window m ds ls
    → Tracks window n ds ls
Tracks_later h empty = empty
Tracks_later h (keep d l e t) = keep d l e (Tracks_later h t)
Tracks_later {window} {m} {n} h (drop l c t) =
    drop l (is_counted_later window m n l.fate h c) (Tracks_later h t)

pub Tracks-append :
    {window now : ℤ} {ds : List DustRow} {ls : List Line} (d : DustRow) (l : Line)
    → l ≡ line_of d
    → Tracks window now ds ls
    → Tracks window now (ds ++ d ∷ []) (ls ++ l ∷ [])
Tracks-append d l e empty = keep d l e empty
Tracks-append d l e (keep d' l' e' t) = keep d' l' e' (Tracks-append d l e t)
Tracks-append d l e (drop l' c t) = drop l' c (Tracks-append d l e t)

line_of-move_dust :
    (next : DustState) (now : Number) (d : DustRow)
    → line_of (move_dust next now d)
      ≡ record { key = d.operation_key; amount = d.amount; fate = settle_fate outstanding next now }
unfolding move_dust
line_of-move_dust reserved now d = refl
line_of-move_dust spent now d = refl
line_of-move_dust released now d = refl

settled_fate :
    (state : DustState) (at : Option Number) (next : DustState) (now : Number)
    → eq_dust_state state reserved ≡ false
    → settle_fate (fate_of state at) next now ≡ fate_of state at
settled_fate reserved at next now h = cc
settled_fate spent none next now h = refl
settled_fate spent (some t) next now h = refl
settled_fate released at next now h = refl

settle_line-move :
    (key : Text) (next : DustState) (now : Number) (d : DustRow)
    → settle_line key next now (line_of d)
      ≡ line_of (if is_held key d then move_dust next now d else d)
unfolding is_held
settle_line-move key next now d = elim (Bool-cases (eq_text d.operation_key key)) [
  | inr other ↦ rw other refl
  | inl same ↦ elim (Bool-cases (eq_dust_state d.state reserved)) [
    | inl held ↦
        let e = eq_reserved d.state held in
        let f : fate_of d.state d.spent_at_ms ≡ outstanding = rw e refl in
        rw (same, held, f) (sym (line_of-move_dust next now d))
    | inr done ↦ rw (same, done, settled_fate d.state d.spent_at_ms next now done) refl
  ]
]

uncounted_settle :
    (window at : ℤ) (key : Text) (next : DustState) (now : Number) (l : Line)
    → is_counted window at l.fate ≡ false
    → is_counted window at (settle_line key next now l).fate ≡ false
uncounted_settle window at key next now l c = elim (Bool-cases (eq_text l.key key)) [
  | inr other ↦ rw other c
  | inl same ↦ rw same (fate l.fate c)
]
  where
    fate :
        (f : Fate)
        → is_counted window at f ≡ false
        → is_counted window at (settle_fate f next now) ≡ false
    fate outstanding h = cc
    fate freed h = h
    fate (spent_then t) h = h

pub Tracks-move_held :
    {window at : ℤ} {ds : List DustRow} {ls : List Line} (key : Text) (next : DustState)
    (now : Number)
    → Tracks window at ds ls
    → Tracks window at (move_held key next now ds) (settle key next now ls)
unfolding move_held
Tracks-move_held key next now empty = empty
Tracks-move_held key next now (keep d l e t) =
    keep _ _
      (subst
        (λ x.
          settle_line key next now x ≡ line_of (if is_held key d then move_dust next now d else d))
        (sym e) (settle_line-move key next now d))
      (Tracks-move_held key next now t)
Tracks-move_held {window} {at} key next now (drop l c t) =
    drop _ (uncounted_settle window at key next now l c) (Tracks-move_held key next now t)

pub settle-reserved : (key : Text) (now : Number) (ls : List Line) → settle key reserved now ls ≡ ls
settle-reserved key now [] = refl
settle-reserved key now (l ∷ ls) = rw (settle-reserved key now ls) (ap (λ x. x ∷ ls) (same l))
  where
    kept : (f : Fate) → settle_fate f reserved now ≡ f
    kept outstanding = refl
    kept freed = refl
    kept (spent_then t) = refl

    same : (l : Line) → settle_line key reserved now l ≡ l
    same l = elim (Bool-cases (eq_text l.key key)) [
      | inl e ↦ rw (e, kept l.fate) refl
      | inr e ↦ rw e refl
    ]
