-- ===== src/Journal/Dust/Outcomes.antt =====
-- What is left when an operation on the DUST succeeds.
use zswap_offerfiles_kernel.Prelude.{
  ℕ, ◌≡◌, ◌⊎◌, inl, inr, refl, sym, subst, true, keep_if, All, arith, Bool-cases, Option-cases, ok,
  ◌>>◌, >>-eq-ok, throw_if-eq-ok,
}
use zswap_offerfiles_kernel.Prelude.Int.{pos, ◌+ℤ◌, ◌≤ℤ◌, ltb_ℤ, leb_ℤ}
use zswap_offerfiles_kernel.Prelude.Text.{Text, codes}
use zswap_offerfiles_kernel.Prelude.Number.{Number}
use zswap_offerfiles_kernel.Journal.{at_least, require_text, require_safe_integer}
use zswap_offerfiles_kernel.Journal.Store.{
  DustState, DustRow, Journal, Options, assert_open, check_clock, find_row, assert_within_ceilings,
}
use zswap_offerfiles_kernel.Journal.Dust.{
  DustRequest, DustResult, require_positive, hydrate_dust, cutoff, usage_at, find_dust, is_replay,
  is_settlement_of, new_dust, with_dust, move_held, transition_held, transition_dust, is_kept,
  prune_dust, reserve_new, reserve_found, reserve_dust,
}
use zswap_offerfiles_kernel.Journal.Dust.Budget.{
  IsPositive, sum_counted-append, sum_counted-move_held, move_held-IsPositive, sum_counted-keep_if,
}

-- the rows of the other table are as they were
abbrev pub SameRows : Journal → Journal → Type 0
SameRows s t = (t.rows ≡ s.rows) × (t.next_id ≡ s.next_id)

-- The DUST of `t` is sound where that of `s` is, and no more of it counts.
pub record Spares (window now : Number) (s t : Journal) : Type 0 where
  pub rows : SameRows s t
  pub positive : All IsPositive s.dust → All IsPositive t.dust
  pub usage : All IsPositive s.dust → usage_at window now t ≤ℤ usage_at window now s

pub Spares-refl : (window now : Number) (s : Journal) → Spares window now s s
Spares-refl window now s = record {
  rows = (refl, refl);
  positive = λ a. a;
  usage = λ a. omega arith;
}

-- A reservation that was not there before, and that fits in the budget.
pub record Reserves (r : DustRequest) (now : Number) (s t : Journal) : Type 0 where
  pub new : t ≡ with_dust (new_dust r now) s
  pub positive : pos 1 ≤ℤ r.amount
  pub job : r.amount ≤ℤ r.max_per_job
  pub window : usage_at r.window_ms now t ≤ℤ r.max_per_window
  pub settlement : is_settlement_of r (find_row r.operation_key s.rows) ≡ true

module _ (options : Options) (bytes_used : Journal → ℕ) where
  within :
      (r : DustRequest) (now : Number) (s : Journal)
      → usage_at r.window_ms now s +ℤ r.amount ≤ℤ r.max_per_window
      → usage_at r.window_ms now (with_dust (new_dust r now) s) ≤ℤ r.max_per_window
  unfolding usage_at
  within r now s h = rw (sum_counted-append (cutoff r.window_ms now) r now s.dust) h

  reserve_new-Reserves :
      (r : DustRequest) (now : Number) (s t : Journal) (res : DustResult)
      → pos 1 ≤ℤ r.amount
      → reserve_new options bytes_used r now s ≡ ok (res, t)
      → (t ≡ s) ⊎ Reserves r now s t
  unfolding reserve_new
  reserve_new-Reserves r now s t res p h = elim (Bool-cases (ltb_ℤ r.max_per_job r.amount)) [
    | inl over ↦ let same : s ≡ t = ground arith in inl (sym same)
    | inr job ↦
        elim (Bool-cases (ltb_ℤ r.max_per_window (usage_at r.window_ms now s +ℤ r.amount))) [
          | inl over ↦ let same : s ≡ t = ground arith in inl (sym same)
          | inr fits ↦ elim (Bool-cases (is_settlement_of r (find_row r.operation_key s.rows))) [
            | inr missing ↦ ground arith
            | inl there ↦
                let outcome : DustResult × Journal = (
                  DustResult.accepted (new_dust r now) (usage_at r.window_ms now s +ℤ r.amount),
                  with_dust (new_dust r now) s,
                ) in
                let h1 : (assert_within_ceilings options bytes_used (with_dust (new_dust r now) s)
                      >> ok outcome)
                    ≡ ok (res, t) =
                  ground arith in
                let (h2, h3) =
                  >>-eq-ok
                    (assert_within_ceilings options bytes_used (with_dust (new_dust r now) s)) _
                    h1 in
                let same : t ≡ with_dust (new_dust r now) s = cc in
                inr (record {
                  new = same;
                  positive = p;
                  job = ground arith;
                  window = rw same (within r now s (ground arith));
                  settlement = there;
                })
          ]
        ]
  ]

  pub reserve_found-eq :
      (r : DustRequest) (now : Number) (s t : Journal) (res : DustResult) (d : DustRow)
      → reserve_found options bytes_used r now s d ≡ ok (res, t)
      → t ≡ s
  unfolding reserve_found
  reserve_found-eq r now s t res d h =
      let (h0, h1) = >>-eq-ok (hydrate_dust d) _ h in
      elim (Bool-cases (is_replay d r)) [ inl e ↦ ground arith | inr e ↦ ground arith ]

  pub reserve_dust-Reserves :
      (r : DustRequest) (now : Number) (s t : Journal) (res : DustResult)
      → reserve_dust options bytes_used r now s ≡ ok (res, t)
      → (t ≡ s) ⊎ Reserves r now s t
  unfolding reserve_dust require_positive
  reserve_dust-Reserves r now s t res h =
      let (h0, h1) = >>-eq-ok (assert_open s) _ h in
      let (h2, h3) = >>-eq-ok (require_text (codes "dust operationKey") 512 r.operation_key) _ h1 in
      let (h4, h5) = >>-eq-ok (require_text (codes "dust jobId") 512 r.job_id) _ h3 in
      let (h6, h7) =
        >>-eq-ok (require_safe_integer (codes "dust generation") (at_least 0) r.generation) _ h5 in
      let (amount, h8) = >>-eq-ok (require_positive (codes "dust amount") r.amount) _ h7 in
      let (h9, h10) = >>-eq-ok (require_positive (codes "dust maxPerJob") r.max_per_job) _ h8 in
      let (h11, h12) =
        >>-eq-ok (require_positive (codes "dust maxPerWindow") r.max_per_window) _ h10 in
      let (h13, h14) =
        >>-eq-ok (require_safe_integer (codes "dust windowMs") (at_least 1) r.window_ms) _ h12 in
      let (h15, h16) = >>-eq-ok (check_clock now) _ h14 in
      let not_low = throw_if-eq-ok (leb_ℤ r.amount (pos 0)) _ amount in
      elim (Option-cases (find_dust r.operation_key s.dust)) [
        | inl missing ↦ reserve_new-Reserves r now s t res (ground arith) (ground arith)
        | inr (d, found) ↦ inl (reserve_found-eq r now s t res d (ground arith))
      ]

pub transition_dust-Spares :
    (window : Number) (key : Text) (next : DustState) (now : Number) (s t : Journal)
    → transition_dust key next now s ≡ ok t
    → Spares window now s t
unfolding transition_dust transition_held
transition_dust-Spares window key next now s t h =
    let (h0, h1) = >>-eq-ok (assert_open s) _ h in
    let (h2, h3) = >>-eq-ok (require_text (codes "dust operationKey") 512 key) _ h1 in
    let (h4, h5) = >>-eq-ok (check_clock now) _ h3 in
    elim (Option-cases (find_dust key s.dust)) [
      | inl missing ↦
          let same : s ≡ t = ground arith in
          subst (λ u. Spares window now s u) same (Spares-refl window now s)
      | inr (d, found) ↦ held d (ground arith)
    ]
  where
    moved : Spares window now s (record s { dust = move_held key next now s.dust })
    moved = record {
      rows = (refl, refl);
      positive = λ a. move_held-IsPositive key next now s.dust a;
      usage =
          λ a. unfold usage_at in sum_counted-move_held (cutoff window now) key next now s.dust a;
    }

    held : (d : DustRow) → transition_held key next now s d ≡ ok t → Spares window now s t
    held d h =
        let (h0, h1) = >>-eq-ok (hydrate_dust d) _ h in
        let one_of : (s ≡ t) ⊎ (record s { dust = move_held key next now s.dust } ≡ t) =
          ground arith in
        elim one_of [
          | inl same ↦ subst (λ u. Spares window now s u) same (Spares-refl window now s)
          | inr same ↦ subst (λ u. Spares window now s u) same moved
        ]

pub prune_dust-Spares :
    (window now window' now' : Number) (s t : Journal)
    → prune_dust window' now' s ≡ ok t
    → Spares window now s t
unfolding prune_dust
prune_dust-Spares window now window' now' s t h =
    let (h0, h1) = >>-eq-ok (assert_open s) _ h in
    let (h2, h3) =
      >>-eq-ok (require_safe_integer (codes "dust windowMs") (at_least 1) window') _ h1 in
    let (h4, h5) =
      >>-eq-ok (require_safe_integer (codes "dust prune clock") (at_least 1) now') _ h3 in
    let test = λ (d : DustRow). is_kept (cutoff window' now') d.state d.spent_at_ms in
    let same : record s { dust = keep_if test s.dust } ≡ t = cc in
    subst (λ u. Spares window now s u) same
      (record {
        rows = (refl, refl);
        positive = λ a. (sum_counted-keep_if (cutoff window now) test s.dust a).1;
        usage = λ a. unfold usage_at in (sum_counted-keep_if (cutoff window now) test s.dust a).0;
      })
