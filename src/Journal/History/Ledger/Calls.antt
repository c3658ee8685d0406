-- ===== src/Journal/History/Ledger/Calls.antt =====
-- The account of the DUST under each call of packages/solver/src/operation-journal.ts that changes it.
use zswap_offerfiles_kernel.Prelude.{
  ℕ, ◌≡◌, inl, inr, refl, sym, subst, Bool, true, false, not, Option, none, some, List, keep_if,
  arith, Bool-cases, Option-cases, Result, ok, ◌>>◌, >>-eq-ok,
}
use zswap_offerfiles_kernel.Prelude.Int.{ℤ, pos, ◌+ℤ◌, ◌-ℤ◌, ◌≤ℤ◌, ltb_ℤ, -ℤ_parts}
use zswap_offerfiles_kernel.Prelude.Text.{Text, codes}
use zswap_offerfiles_kernel.Prelude.Number.{Number, integer, inexact}
use zswap_offerfiles_kernel.Journal.{
  JournalError, at_least, le_num, require_text, require_safe_integer,
}
use zswap_offerfiles_kernel.Journal.Store.{
  DustState, reserved, spent, released, DustRow, Journal, Options, assert_open, check_clock,
  find_row, assert_within_ceilings,
}
use zswap_offerfiles_kernel.Journal.Dust.{
  DustRequest, DustResult, accepted, over_job, over_window, cutoff, usage_at, find_dust,
  is_settlement_of, new_dust, with_dust, eq_dust_state, move_held, hydrate_dust, require_positive,
  transition_held, transition_dust, is_kept, prune_dust, reserve_new, reserve_dust,
}
use zswap_offerfiles_kernel.Journal.Dust.Budget.{eq_reserved}
use zswap_offerfiles_kernel.Journal.Dust.Outcomes.{reserve_found-eq}
use zswap_offerfiles_kernel.Journal.History.Ledger.{
  Line, booked, settle, moved, is_counted, fate_of, line_of, Tracks, empty, keep, drop,
  Tracks-append, Tracks-move_held, settle-reserved,
}

-- a row that is pruned by then does not count
pruned_fate :
    (window now window' at : ℤ) (state : DustState) (t : Option Number)
    → window ≤ℤ window'
    → at ≤ℤ now
    → is_kept (cutoff (integer window') (integer at)) state t ≡ false
    → is_counted window now (fate_of state t) ≡ false
unfolding is_kept cutoff
pruned_fate window now window' at reserved t h i k = cc
pruned_fate window now window' at released t h i k = refl
pruned_fate window now window' at spent none h i k = cc
pruned_fate window now window' at spent (some inexact) h i k = refl
pruned_fate window now window' at spent (some (integer t)) h i k =
    elim (Bool-cases (ltb_ℤ (pos 0) (at -ℤ window'))) [
      | inl e ↦
          let past : not (le_num (integer t) (integer (at -ℤ window'))) ≡ false = rw e at k in
          ground (arith, -ℤ_parts at window', -ℤ_parts now window)
      | inr e ↦
          let past : not (le_num (integer t) (integer (pos 0))) ≡ false = rw e at k in
          ground (arith, -ℤ_parts at window', -ℤ_parts now window)
    ]

Tracks-keep_if :
    {window now : ℤ} {ds : List DustRow} {ls : List Line} (test : DustRow → Bool)
    → ((d : DustRow) → test d ≡ false → is_counted window now (line_of d).fate ≡ false)
    → Tracks window now ds ls
    → Tracks window now (keep_if test ds) ls
Tracks-keep_if test h empty = empty
Tracks-keep_if {window} {now} test h (keep {ds} {ls} d l e t) = elim (Bool-cases (test d)) [
  | inl c ↦ rw c (keep d l e (Tracks-keep_if test h t))
  | inr c ↦ rw c (
      drop l (subst (λ x. is_counted window now x.fate ≡ false) (sym e) (h d c))
        (Tracks-keep_if test h t))
]
Tracks-keep_if test h (drop l c t) = drop l c (Tracks-keep_if test h t)

pub prune_dust-Tracks :
    {window now : ℤ} {ls : List Line} (window' at : ℤ) (s t : Journal)
    → window ≤ℤ window'
    → at ≤ℤ now
    → prune_dust (integer window') (integer at) s ≡ ok t
    → Tracks window now s.dust ls
    → Tracks window now t.dust ls
unfolding prune_dust
prune_dust-Tracks {window} {now} {ls} window' at s t w a h tracks =
    let (h0, h1) = >>-eq-ok (assert_open s) _ h in
    let (h2, h3) =
      >>-eq-ok (require_safe_integer (codes "dust windowMs") (at_least 1) (integer window')) _ h1 in
    let (h4, h5) =
      >>-eq-ok (require_safe_integer (codes "dust prune clock") (at_least 1) (integer at)) _ h3 in
    let test =
      λ (d : DustRow). is_kept (cutoff (integer window') (integer at)) d.state d.spent_at_ms in
    let same : record s { dust = keep_if test s.dust } ≡ t = cc in
    subst (λ (u : Journal). Tracks window now u.dust ls) same
      (Tracks-keep_if test (λ d. pruned_fate window now window' at d.state d.spent_at_ms w a)
        tracks)

pub transition_dust-Tracks :
    {window at : ℤ} {ls : List Line} (key : Text) (next : DustState) (now : Number) (s t : Journal)
    → transition_dust key next now s ≡ ok t
    → Tracks window at s.dust ls
    → Tracks window at t.dust (moved key next now (find_dust key s.dust) ls)
unfolding transition_dust transition_held
transition_dust-Tracks {window} {at} {ls} key next now s t h tracks =
    let (h0, h1) = >>-eq-ok (assert_open s) _ h in
    let (h2, h3) = >>-eq-ok (require_text (codes "dust operationKey") 512 key) _ h1 in
    let (h4, h5) = >>-eq-ok (check_clock now) _ h3 in
    elim (Option-cases (find_dust key s.dust)) [
      | inl missing ↦
          let same : s ≡ t = ground arith in
          rw missing (subst (λ (u : Journal). Tracks window at u.dust ls) same tracks)
      | inr (d, found) ↦ rw found (found_row d (ground arith))
    ]
  where
    unmoved : (next : DustState) → next ≡ reserved → settle key next now ls ≡ ls
    unmoved next e = rw e (settle-reserved key now ls)

    found_row :
        (d : DustRow)
        → transition_held key next now s d ≡ ok t
        → Tracks window at t.dust (moved key next now (some d) ls)
    found_row d h =
        let (h0, h1) = >>-eq-ok (hydrate_dust d) _ h in
        elim (Bool-cases (eq_dust_state d.state next)) [
          | inl e ↦
              let same : s ≡ t = ground arith in
              elim (Bool-cases (eq_dust_state d.state reserved)) [
                | inr f ↦ rw f (subst (λ (u : Journal). Tracks window at u.dust ls) same tracks)
                | inl f ↦
                    let r = eq_reserved d.state f in
                    let e' : eq_dust_state reserved next ≡ true =
                      subst (λ x. eq_dust_state x next ≡ true) r e in
                    rw (f, unmoved next (reserved_only next e'))
                      (subst (λ (u : Journal). Tracks window at u.dust ls) same tracks)
              ]
          | inr e ↦
              let f : eq_dust_state d.state reserved ≡ true = ground arith in
              let same : record s { dust = move_held key next now s.dust } ≡ t = ground arith in
              rw f (
                subst (λ (u : Journal). Tracks window at u.dust (settle key next now ls)) same
                  (Tracks-move_held key next now tracks))
        ]
      where
        reserved_only : (x : DustState) → eq_dust_state reserved x ≡ true → x ≡ reserved
        reserved_only reserved h = refl
        reserved_only spent h = cc
        reserved_only released h = cc

module _ (options : Options) (bytes_used : Journal → ℕ) where
  -- A reservation of which no row is there is written exactly if it is accepted.
  reserve_new-Tracks :
      {window now : ℤ} {ls : List Line} (r : DustRequest) (s t : Journal) (res : DustResult)
      → reserve_new options bytes_used r (integer now) s ≡ ok (res, t)
      → Tracks window now s.dust ls
      → Tracks window now t.dust (booked r none res ls)
  unfolding reserve_new
  reserve_new-Tracks {window} {now} {ls} r s t res h tracks =
      let usage = usage_at r.window_ms (integer now) s in
      elim (Bool-cases (ltb_ℤ r.max_per_job r.amount)) [
        | inl over ↦ result (over_job usage) s (ground arith) tracks
        | inr job ↦ elim (Bool-cases (ltb_ℤ r.max_per_window (usage +ℤ r.amount))) [
          | inl over ↦ result (over_window usage) s (ground arith) tracks
          | inr fits ↦ elim (Bool-cases (is_settlement_of r (find_row r.operation_key s.rows))) [
            | inr missing ↦ ground arith
            | inl there ↦
                let outcome : DustResult × Journal = (
                  accepted (new_dust r (integer now)) (usage +ℤ r.amount),
                  with_dust (new_dust r (integer now)) s,
                ) in
                let h1 : (assert_within_ceilings options bytes_used
                        (with_dust (new_dust r (integer now)) s)
                      >> ok outcome)
                    ≡ ok (res, t) =
                  ground arith in
                let (h2, h3) =
                  >>-eq-ok
                    (assert_within_ceilings options bytes_used
                      (with_dust (new_dust r (integer now)) s))
                    _ h1 in
                result (accepted (new_dust r (integer now)) (usage +ℤ r.amount))
                  (with_dust (new_dust r (integer now)) s) h3
                  (Tracks-append (new_dust r (integer now)) _ (unfold new_dust in refl) tracks)
          ]
        ]
      ]
    where
      result :
          (res' : DustResult) (t' : Journal)
          → ◌≡◌ {A = Result JournalError (DustResult × Journal)} (ok (res', t')) (ok (res, t))
          → Tracks window now t'.dust (booked r none res' ls)
          → Tracks window now t.dust (booked r none res ls)
      result res' t' e tracks =
          let same : res' ≡ res = cc in
          let left : t' ≡ t = cc in
          subst (λ x. Tracks window now t.dust (booked r none x ls)) same
            (subst (λ (u : Journal). Tracks window now u.dust (booked r none res' ls)) left tracks)

  pub reserve_dust-Tracks :
      {window now : ℤ} {ls : List Line} (r : DustRequest) (s t : Journal) (res : DustResult)
      → reserve_dust options bytes_used r (integer now) s ≡ ok (res, t)
      → Tracks window now s.dust ls
      → Tracks window now t.dust (booked r (find_dust r.operation_key s.dust) res ls)
  unfolding reserve_dust
  reserve_dust-Tracks {window} {now} {ls} r s t res h tracks =
      let (h0, h1) = >>-eq-ok (assert_open s) _ h in
      let (h2, h3) = >>-eq-ok (require_text (codes "dust operationKey") 512 r.operation_key) _ h1 in
      let (h4, h5) = >>-eq-ok (require_text (codes "dust jobId") 512 r.job_id) _ h3 in
      let (h6, h7) =
        >>-eq-ok (require_safe_integer (codes "dust generation") (at_least 0) r.generation) _ h5 in
      let (h8, h9) = >>-eq-ok (require_positive (codes "dust amount") r.amount) _ h7 in
      let (h10, h11) = >>-eq-ok (require_positive (codes "dust maxPerJob") r.max_per_job) _ h9 in
      let (h12, h13) =
        >>-eq-ok (require_positive (codes "dust maxPerWindow") r.max_per_window) _ h11 in
      let (h14, h15) =
        >>-eq-ok (require_safe_integer (codes "dust windowMs") (at_least 1) r.window_ms) _ h13 in
      let (h16, h17) = >>-eq-ok (check_clock (integer now)) _ h15 in
      elim (Option-cases (find_dust r.operation_key s.dust)) [
        | inl missing ↦ rw missing (reserve_new-Tracks r s t res (ground arith) tracks)
        | inr (d, found) ↦
            let same =
              reserve_found-eq options bytes_used r (integer now) s t res d (ground arith) in
            rw found (subst (λ (u : Journal). Tracks window now u.dust ls) (sym same) tracks)
      ]
