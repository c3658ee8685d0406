-- ===== src/Liveness/Verdicts.antt =====
-- The two evaluations of an offer's liveness: when they agree, and what their verdict means.
use zswap_offerfiles_kernel.Prelude.{
  ℕ, ◌∙◌, ◌≤◌, ◌<◌, ◌==◌, ltb, map, ◌≡◌, ◌⊎◌, refl, ap, subst, Bool, true, false, Option, none,
  some, List, [], ◌∷◌, ◌++◌, All, arith, inl, inr, Result, ok, err, ◌>>=◌, Result-cases,
}
use zswap_offerfiles_kernel.Liveness.{
  Validation, Descriptor, nullifier, unshielded, root, RejectCode, nullifier_spent, utxo_not_live,
  root_unknown, or_empty, not_live, Verdict, usable, failed, ordered_descriptors, liveness_failure,
  after_probe, evaluate_from, evaluate, Database, CutoffState, get_cutoff, probe_root,
  database_probe, evaluate_from_database, is_live, after_live, machine_from,
  evaluate_in_state_machine,
}

module _ {E : Type 0} (db : Database E) (fetch : ℕ → Result E ℕ) (cutoff : ℕ) where
  -- the cutoff was not asked for yet, or once
  abbrev IsFetched : CutoffState E → Type 0
  IsFetched s =
      ((s.root_cutoff ≡ none) × (s.calls ≡ 0))
      ⊎ ((s.root_cutoff ≡ some (ok cutoff)) × (s.calls ≡ 1))

  probe_agrees :
      (d : Descriptor) (s : CutoffState E)
      → fetch 0 ≡ ok cutoff
      → IsFetched s
      → ((database_probe db fetch d s).0 ≡ (is_live db cutoff d >>= λ b. ok (some b)))
        × IsFetched (database_probe db fetch d s).1
  unfolding database_probe is_live
  probe_agrees (nullifier n) s f g =
      (elim (Result-cases (db.spent_rows n)) [ inl (k, e) ↦ rw e | inr (x, e) ↦ rw e ], g)
  probe_agrees (unshielded r) s f g =
      (elim (Result-cases (db.created_rows r)) [ inl (k, e) ↦ rw e | inr (x, e) ↦ rw e ], g)
  probe_agrees (root r) s f g = asked (get_cutoff fetch s) (fetched s g)
    where
      fetched :
          (s : CutoffState E)
          → IsFetched s
          → ((get_cutoff fetch s).0 ≡ ok cutoff) × IsFetched (get_cutoff fetch s).1
      fetched s (inl (e, z)) = unfold get_cutoff in rw (e, z, f) (refl, inr (refl, refl))
      fetched s (inr (e, z)) = unfold get_cutoff in rw e (refl, inr (refl, z))

      asked :
          (p : Result E ℕ × CutoffState E)
          → (p.0 ≡ ok cutoff) × IsFetched p.1
          → ((probe_root db r p).0 ≡ (is_live db cutoff (root r) >>= λ b. ok (some b)))
            × IsFetched (probe_root db r p).1
      asked (c, t) (e, g) =
          unfold probe_root is_live in
          (
            rw e (elim (Result-cases (db.root_rows r cutoff)) [
              | inl (k, h) ↦ rw h
              | inr (x, h) ↦ rw h
            ]),
            g,
          )

  round_agrees :
      (d : Descriptor) (go_on : CutoffState E → Result E Verdict × CutoffState E)
      (rest : Result E Verdict) (b : Result E Bool) (p : Result E (Option Bool) × CutoffState E)
      → (p.0 ≡ (b >>= λ x. ok (some x))) × IsFetched p.1
      → ((t : CutoffState E) → IsFetched t → ((go_on t).0 ≡ rest) × IsFetched (go_on t).1)
      → ((after_probe d go_on p).0 ≡ after_live d rest b) × IsFetched (after_probe d go_on p).1
  unfolding after_probe after_live
  round_agrees d go_on rest (err x) (p, t) (e, g) next = rw e (refl, g)
  round_agrees d go_on rest (ok true) (p, t) (e, g) next = rw e (next t g)
  round_agrees d go_on rest (ok false) (p, t) (e, g) next = rw e (refl, g)

  loop_agrees :
      (ds : List Descriptor) (s : CutoffState E)
      → fetch 0 ≡ ok cutoff
      → IsFetched s
      → ((evaluate_from (database_probe db fetch) ds s).0 ≡ machine_from db cutoff ds)
        × IsFetched (evaluate_from (database_probe db fetch) ds s).1
  unfolding evaluate_from machine_from
  loop_agrees [] s f g = (refl, g)
  loop_agrees (d ∷ ds) s f g =
      round_agrees d (evaluate_from (database_probe db fetch) ds) (machine_from db cutoff ds)
        (is_live db cutoff d) (database_probe db fetch d s) (probe_agrees d s f g)
        (λ t h. loop_agrees ds t f h)

  -- With the same rows and the same root cutoff, the evaluation of the HTTP submission gives the
  -- verdict of the state machine, throws included, and asks for the cutoff at most once.
  pub evaluations_agree :
      (v : Validation)
      → fetch 0 ≡ ok cutoff
      → ((evaluate_from_database db fetch v).0 ≡ evaluate_in_state_machine db cutoff v)
        × ((evaluate_from_database db fetch v).1.calls ≤ 1)
  unfolding evaluate_from_database evaluate evaluate_in_state_machine
  evaluations_agree v f =
      let (same, g) =
        loop_agrees (ordered_descriptors v) (record { root_cutoff = none; calls = 0 }) f
          (inl (refl, refl)) in
      (same, elim g [ inl (e, z) ↦ omega arith | inr (e, z) ↦ omega arith ])

-- The nullifiers of an offer, then its unshielded spends, then its roots.
abbrev pub references : Validation → List Descriptor
references v =
    map nullifier (or_empty v.nullifiers)
    ++ (map unshielded (or_empty v.unshielded_spends) ++ map root (or_empty v.input_roots))

-- the code of the state machine's refusals
abbrev pub refusal_code : Descriptor → RejectCode
refusal_code (nullifier n) = nullifier_spent
refusal_code (unshielded r) = utxo_not_live
refusal_code (root r) = root_unknown

pos_of : (k : ℕ) → ltb 0 k ≡ true → 0 < k
pos_of k h = ground arith

module _ {E : Type 0} (db : Database E) (cutoff : ℕ) where
  -- a nullifier with no row, an unshielded output or a recent root with one
  abbrev pub IsLive : Descriptor → Type 0
  IsLive (nullifier n) = db.spent_rows n ≡ ok 0
  IsLive (unshielded r) = (k : ℕ) × (db.created_rows r ≡ ok k) × (0 < k)
  IsLive (root r) = (k : ℕ) × (db.root_rows r cutoff ≡ ok k) × (0 < k)

  abbrev pub IsDead : Descriptor → Type 0
  IsDead (nullifier n) = (k : ℕ) × (db.spent_rows n ≡ ok k) × (0 < k)
  IsDead (unshielded r) = db.created_rows r ≡ ok 0
  IsDead (root r) = db.root_rows r cutoff ≡ ok 0

  -- What a verdict says of the references in their order.
  abbrev pub Decides : Verdict → List Descriptor → Type 0
  Decides usable ds = All IsLive ds
  Decides (failed f) ds =
      (d : Descriptor) × (front : List Descriptor) × (back : List Descriptor) × (ds
        ≡ front ++ d ∷ back)
      × All IsLive front
      × IsDead d
      × (f.descriptor ≡ d)
      × (f.code ≡ refusal_code d)

  rows_found :
      (rows : Result E ℕ) (test : ℕ → Bool) (b : Bool)
      → (rows >>= λ k. ok (test k)) ≡ ok b
      → (k : ℕ) × (rows ≡ ok k) × (test k ≡ b)
  rows_found (ok k) test b h = (k, refl, ground arith)
  rows_found (err x) test b h = cc

  is_live-IsLive : (d : Descriptor) → is_live db cutoff d ≡ ok true → IsLive d
  unfolding is_live
  is_live-IsLive (nullifier n) h =
      let (k, e, z) = rows_found (db.spent_rows n) (λ k. k == 0) true h in
      let same : k ≡ 0 = ground arith in e ∙ ap ok same
  is_live-IsLive (unshielded r) h =
      let (k, e, z) = rows_found (db.created_rows r) (ltb 0) true h in (k, e, pos_of k z)
  is_live-IsLive (root r) h =
      let (k, e, z) = rows_found (db.root_rows r cutoff) (ltb 0) true h in (k, e, pos_of k z)

  is_live-IsDead : (d : Descriptor) → is_live db cutoff d ≡ ok false → IsDead d
  unfolding is_live
  is_live-IsDead (nullifier n) h =
      let (k, e, z) = rows_found (db.spent_rows n) (λ k. k == 0) false h in (k, e, ground arith)
  is_live-IsDead (unshielded r) h =
      let (k, e, z) = rows_found (db.created_rows r) (ltb 0) false h in
      let same : k ≡ 0 = ground arith in e ∙ ap ok same
  is_live-IsDead (root r) h =
      let (k, e, z) = rows_found (db.root_rows r cutoff) (ltb 0) false h in
      let same : k ≡ 0 = ground arith in e ∙ ap ok same

  failure_of :
      (d : Descriptor)
      → ((liveness_failure d not_live).descriptor ≡ d)
        × ((liveness_failure d not_live).code ≡ refusal_code d)
  unfolding liveness_failure
  failure_of (nullifier n) = (refl, refl)
  failure_of (unshielded r) = (refl, refl)
  failure_of (root r) = (refl, refl)

  Decides-cons :
      (d : Descriptor) (ds : List Descriptor) (v : Verdict)
      → IsLive d
      → Decides v ds
      → Decides v (d ∷ ds)
  Decides-cons d ds usable l h = (l, h)
  Decides-cons d ds (failed f) l (x, front, back, e, all, dead, about, code) =
      (x, d ∷ front, back, ap (λ ys. d ∷ ys) e, (l, all), dead, about, code)

  machine_from-Decides :
      (ds : List Descriptor) (v : Verdict) → machine_from db cutoff ds ≡ ok v → Decides v ds
  unfolding machine_from
  machine_from-Decides [] v h = let same : usable ≡ v = cc in subst (λ w. Decides w []) same tt
  machine_from-Decides (d ∷ ds) v h = round (is_live db cutoff d) refl h (machine_from-Decides ds v)
    where
      round :
          (b : Result E Bool)
          → is_live db cutoff d ≡ b
          → after_live d (machine_from db cutoff ds) b ≡ ok v
          → (machine_from db cutoff ds ≡ ok v → Decides v ds)
          → Decides v (d ∷ ds)
      round (err x) e h next = let bad : err x ≡ ok v = unfold after_live in h in cc
      round (ok true) e h next =
          Decides-cons d ds v (is_live-IsLive d e) (next (unfold after_live in h))
      round (ok false) e h next =
          let same : failed (liveness_failure d not_live) ≡ v = unfold after_live in cc in
          subst (λ w. Decides w (d ∷ ds)) same
            (d, [], ds, refl, tt, is_live-IsDead d e, (failure_of d).0, (failure_of d).1)

  -- A verdict of the state machine is about the nullifiers of an offer, then its unshielded spends,
  -- then its roots: it refuses the offer with the code of the first that is not live, and passes it
  -- only if all are, where a nullifier is live that has no row, and an unshielded output or a root
  -- that has one, a root at the cutoff.
  pub evaluate_in_state_machine-Decides :
      (v : Validation) (verdict : Verdict)
      → evaluate_in_state_machine db cutoff v ≡ ok verdict
      → Decides verdict (references v)
  unfolding evaluate_in_state_machine ordered_descriptors
  evaluate_in_state_machine-Decides v verdict h = machine_from-Decides (references v) verdict h
