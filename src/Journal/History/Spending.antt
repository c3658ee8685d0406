-- ===== src/Journal/History/Spending.antt =====
-- The DUST budget over a history, by the account that is kept beside the journal.
use zswap_offerfiles_kernel.Prelude.{
  ◌≡◌, inl, inr, refl, sym, subst, ap, ok, List, [], ◌∷◌, All, All-append, arith,
}
use zswap_offerfiles_kernel.Prelude.Int.{ℤ, pos, ◌≤ℤ◌}
use zswap_offerfiles_kernel.Prelude.Number.{Number, integer}
use zswap_offerfiles_kernel.Journal.Store.{Journal, created}
use zswap_offerfiles_kernel.Journal.Operations.Evolves.{
  AreOptions, Effect, unchanged, inserted, changed, deleted,
}
use zswap_offerfiles_kernel.Journal.Operations.Effects.{
  create_prepared-Effect, transition-Effect, record_receipt-Effect, prune_terminal-Effect,
}
use zswap_offerfiles_kernel.Journal.Dust.{sum_counted, usage_at, new_dust, find_dust, prune_dust}
use zswap_offerfiles_kernel.Journal.Dust.Budget.{IsPositive, usage_at_later}
use zswap_offerfiles_kernel.Journal.Dust.Outcomes.{
  Spares, reserve_dust-Reserves, transition_dust-Spares, prune_dust-Spares,
}
use zswap_offerfiles_kernel.Journal.History.{
  Setting, Step, creates, transitions, records, prunes, reserves, moves, prunes_dust, closes, close,
  Run, here, later,
}
use zswap_offerfiles_kernel.Journal.History.Soundness.{IsSound, Run-IsSound, created-IsSound}
use zswap_offerfiles_kernel.Journal.History.Ledger.{
  Line, booked, moved, exposure, Tracks, empty, Tracks_later, exposure-Tracks,
}
use zswap_offerfiles_kernel.Journal.History.Ledger.Calls.{
  reserve_dust-Tracks, transition_dust-Tracks, prune_dust-Tracks,
}

-- The account after a call.
abbrev pub entered :
    {w : Setting} {now : Number} {s t : Journal} → Step w now s t → List Line → List Line
entered (creates s input) ls = ls
entered (transitions s key expected next patch) ls = ls
entered (records s key receipt) ls = ls
entered (prunes s t at count e) ls = ls
entered (reserves s t request result e) ls =
    booked request (find_dust request.operation_key s.dust) result ls
entered {w} {now} (moves s t key next e) ls = moved key next now (find_dust key s.dust) ls
entered (prunes_dust s t window at e) ls = ls
entered (closes s) ls = ls

module _ (budget window : ℤ) where
  -- Reservations are made with the budget and the window, and the DUST is pruned of what was spent
  -- before a window that is no shorter, at a time that is no later.
  abbrev pub IsPaced : {w : Setting} {now : ℤ} {s t : Journal} → Step w (integer now) s t → Type 0
  IsPaced (creates s input) = Unit {0}
  IsPaced (transitions s key expected next patch) = Unit {0}
  IsPaced (records s key receipt) = Unit {0}
  IsPaced (prunes s t at count e) = Unit {0}
  IsPaced (reserves s t request result e) =
      (request.max_per_window ≡ budget) × (request.window_ms ≡ integer window)
  IsPaced (moves s t key next e) = Unit {0}
  IsPaced {now = now} (prunes_dust s t long at e) =
      (m : ℤ) × (n : ℤ) × (long ≡ integer m) × (at ≡ integer n) × (window ≤ℤ m) × (n ≤ℤ now)
  IsPaced (closes s) = Unit {0}

  -- Calls at times that do not descend, with the account that is kept of them.
  pub data Paced (w : Setting) : ℤ → Journal → List Line → Type 0 where
    opens : (now : ℤ) → Paced w now created []
    waits : {m n : ℤ} {s : Journal} {ls : List Line} → m ≤ℤ n → Paced w m s ls → Paced w n s ls
    calls :
        {now : ℤ} {s t : Journal} {ls : List Line} (step : Step w (integer now) s t)
        → IsPaced step
        → Paced w now s ls
        → Paced w now t (entered step ls)

  Paced-Run :
      {w : Setting} {now : ℤ} {s : Journal} {ls : List Line} → Paced w now s ls → Run w created s
  Paced-Run (opens now) = here
  Paced-Run (waits le p) = Paced-Run p
  Paced-Run (calls step paced p) = later (Paced-Run p) step

  -- What counts is within the budget, and the account tells as much.
  record IsBudgeted (now : ℤ) (s : Journal) (ls : List Line) : Type 0 where
    positive : All IsPositive s.dust
    usage : usage_at (integer window) (integer now) s ≤ℤ budget
    tracks : Tracks window now s.dust ls

  same_dust :
      (now : ℤ) (s t : Journal) (ls : List Line)
      → t.dust ≡ s.dust
      → IsBudgeted now s ls
      → IsBudgeted now t ls
  same_dust now s t ls e h = record {
    positive = rw e h.positive;
    usage = unfold usage_at in rw e (unfold usage_at in h.usage);
    tracks = rw e h.tracks;
  }

  Effect-IsBudgeted :
      (now : ℤ) (s t : Journal) (ls : List Line)
      → Effect s t
      → IsBudgeted now s ls
      → IsBudgeted now t ls
  Effect-IsBudgeted now s t ls effect h = same_dust now s t ls (dust effect) h
    where
      dust : Effect s t → t.dust ≡ s.dust
      dust (unchanged e) = ap (λ (u : Journal). u.dust) e
      dust (inserted r new e) = ap (λ (u : Journal). u.dust) e
      dust (changed p next same) = same
      dust (deleted at e) = ap (λ (u : Journal). u.dust) e

  Spares-IsBudgeted :
      (now : ℤ) (s t : Journal) (ls ls' : List Line)
      → Spares (integer window) (integer now) s t
      → Tracks window now t.dust ls'
      → IsBudgeted now s ls
      → IsBudgeted now t ls'
  Spares-IsBudgeted now s t ls ls' spares tracks h = record {
    positive = spares.positive h.positive;
    usage = (let less = spares.usage h.positive in let fits = h.usage in omega arith);
    tracks = tracks;
  }

  Step-IsBudgeted :
      {w : Setting} {now : ℤ} {s t : Journal} (ls : List Line) (step : Step w (integer now) s t)
      → AreOptions w.options
      → IsSound s
      → IsPaced step
      → IsBudgeted now s ls
      → IsBudgeted now t (entered step ls)
  Step-IsBudgeted {w} {now} ls (creates s input) o sound paced h =
      Effect-IsBudgeted now s _ ls
        (create_prepared-Effect w.options w.bytes_used input (integer now) s o) h
  Step-IsBudgeted {w} {now} ls (transitions s key expected next patch) o sound paced h =
      Effect-IsBudgeted now s _ ls
        (transition-Effect w.options w.bytes_used key expected next patch (integer now) s o
          sound.ascends)
        h
  Step-IsBudgeted {w} {now} ls (records s key receipt) o sound paced h =
      Effect-IsBudgeted now s _ ls
        (record_receipt-Effect w.options w.bytes_used key receipt (integer now) s sound.ascends) h
  Step-IsBudgeted {w} {now} ls (prunes s t at count e) o sound paced h =
      Effect-IsBudgeted now s t ls (prune_terminal-Effect w.options w.bytes_used at s t count e) h
  Step-IsBudgeted {w} {now} ls (reserves s t request result e) o sound (b, v) h =
      let kept = reserve_dust-Tracks w.options w.bytes_used request s t result e h.tracks in
      elim (reserve_dust-Reserves w.options w.bytes_used request (integer now) s t result e) [
        | inl same ↦ record {
          positive = rw same h.positive;
          usage = rw same h.usage;
          tracks = kept;
        }
        | inr r ↦ record {
          positive =
              subst (λ (u : Journal). All IsPositive u.dust) (sym r.new)
                (All-append IsPositive s.dust (new_dust request (integer now) ∷ []) h.positive
                  (unfold new_dust in r.positive, tt));
          usage =
              subst (λ m. usage_at (integer window) (integer now) t ≤ℤ m) b
                (subst (λ v. usage_at v (integer now) t ≤ℤ request.max_per_window) v r.window);
          tracks = kept;
        }
      ]
  Step-IsBudgeted {w} {now} ls (moves s t key next e) o sound paced h =
      Spares-IsBudgeted now s t ls _
        (transition_dust-Spares (integer window) key next (integer now) s t e)
        (transition_dust-Tracks key next (integer now) s t e h.tracks) h
  Step-IsBudgeted {w} {now} ls (prunes_dust s t long at e) o sound (m, n, f, g, le, before) h =
      let e' =
        subst (λ x. prune_dust x (integer n) s ≡ ok t) f
          (subst (λ x. prune_dust long x s ≡ ok t) g e) in
      Spares-IsBudgeted now s t ls ls
        (prune_dust-Spares (integer window) (integer now) long at s t e)
        (prune_dust-Tracks m n s t le before e' h.tracks) h
  Step-IsBudgeted {w} {now} ls (closes s) o sound paced h =
      same_dust now s (close s) ls (unfold close in refl) h

  Paced-IsBudgeted :
      {w : Setting} {now : ℤ} {s : Journal} {ls : List Line}
      → AreOptions w.options
      → pos 0 ≤ℤ budget
      → Paced w now s ls
      → IsBudgeted now s ls
  Paced-IsBudgeted o b (opens now) = record {
    positive = tt;
    usage = unfold usage_at sum_counted in b;
    tracks = empty;
  }
  Paced-IsBudgeted o b (waits {m} {n} {s} le p) =
      let h = Paced-IsBudgeted o b p in
      let less = usage_at_later window m n s le h.positive in
      let fits = h.usage in
      record { positive = h.positive; usage = omega arith; tracks = Tracks_later le h.tracks }
  Paced-IsBudgeted o b (calls {ls = ls} step paced p) =
      Step-IsBudgeted ls step o (Run-IsSound o (Paced-Run p) created-IsSound) paced
        (Paced-IsBudgeted o b p)

  -- With one nonnegative budget and one window for all reservations, options that
  -- `normalizeOptions` lets through, times that do not descend, and `pruneDust` with a window that is
  -- no shorter and a time that is no later: after any history from an empty journal, the
  -- reservations of the account that are outstanding or were spent within the window, of all that
  -- were ever accepted, are within the budget.
  pub spending_within_budget :
      {w : Setting} {now : ℤ} {s : Journal} {ls : List Line}
      → AreOptions w.options
      → pos 0 ≤ℤ budget
      → Paced w now s ls
      → exposure window now ls ≤ℤ budget
  spending_within_budget {w} {now} {s} {ls} o b p =
      let h = Paced-IsBudgeted o b p in
      rw (exposure-Tracks window now s.dust ls h.tracks) (unfold usage_at in h.usage)
