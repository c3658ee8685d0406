-- ===== src/Liveness.antt =====
-- Whether an offer can still be used: packages/validator/liveness.ts and its two callers in
-- packages/node/offer-liveness.ts.
pub mod Verdicts
mod Tests
use zswap_offerfiles_kernel.Prelude.{
  ℕ, ◌+◌, Bool, true, false, Option, none, some, List, [], ◌∷◌, ◌++◌, map, ◌==◌, ltb, Result, ok,
  err, ◌>>=◌, if◌then◌else◌,
}
use zswap_offerfiles_kernel.Prelude.Text.{Text, codes}
use zswap_offerfiles_kernel.Prelude.Decimal.{print}

pub record UnshieldedSpendRef : Type 0 where
  pub owner : Text
  pub intent_hash : Text
  pub output_no : ℕ

-- the fields of OfferValidation that are read here; each may be absent
pub record Validation : Type 0 where
  pub nullifiers : Option (List Text)
  pub unshielded_spends : Option (List UnshieldedSpendRef)
  pub input_roots : Option (List Text)

pub data Descriptor : Type 0 where
  nullifier : Text → Descriptor
  unshielded : UnshieldedSpendRef → Descriptor
  root : Text → Descriptor

pub data RejectCode : Type 0 where
  nullifier_spent root_unknown utxo_spent utxo_unknown utxo_not_live : RejectCode

pub data FailureMode : Type 0 where
  not_live spent unknown : FailureMode

pub record Failure : Type 0 where
  pub code : RejectCode
  pub reason : Text
  pub descriptor : Descriptor

pub data Verdict : Type 0 where
  usable : Verdict
  failed : Failure → Verdict

-- `values ?? []`
abbrev pub or_empty {ℓ} : {A : Type ℓ} → Option (List A) → List A
or_empty none = []
or_empty (some xs) = xs

-- `orderedOfferLivenessDescriptors`
pub ordered_descriptors : Validation → List Descriptor
ordered_descriptors v =
    map nullifier (or_empty v.nullifiers)
    ++ (map unshielded (or_empty v.unshielded_spends) ++ map root (or_empty v.input_roots))

pub identity : UnshieldedSpendRef → Text
identity r = r.owner ++ (b'/' ∷ (r.intent_hash ++ (b'/' ∷ print r.output_no)))

-- `offerLivenessFailure`
pub liveness_failure : Descriptor → FailureMode → Failure
unfolding identity
liveness_failure (nullifier n) mode = record {
  code = nullifier_spent;
  reason = codes "nullifier already spent: " ++ n;
  descriptor = nullifier n;
}
liveness_failure (root r) mode = record {
  code = root_unknown;
  reason = codes "input merkle root not a known recent chain root: " ++ r;
  descriptor = root r;
}
liveness_failure (unshielded r) spent = record {
  code = utxo_spent;
  reason = codes "unshielded UTXO already spent: " ++ identity r;
  descriptor = unshielded r;
}
liveness_failure (unshielded r) unknown = record {
  code = utxo_unknown;
  reason = codes "unshielded UTXO never created on chain: " ++ identity r;
  descriptor = unshielded r;
}
liveness_failure (unshielded r) not_live = record {
  code = utxo_not_live;
  reason = codes "unshielded UTXO not live (spent or never created): " ++ identity r;
  descriptor = unshielded r;
}

-- `E` is what a probe throws, `S` the state that it keeps.
module _ {E S : Type 0} where
  pub after_probe :
      Descriptor → (S → Result E Verdict × S) → Result E (Option Bool) × S → Result E Verdict × S
  after_probe d go_on (err e, s) = (err e, s)
  after_probe d go_on (ok (some false), s) = (ok (failed (liveness_failure d not_live)), s)
  after_probe d go_on (ok (some true), s) = go_on s
  after_probe d go_on (ok none, s) = go_on s

  -- the loop of `evaluateOfferLiveness`
  pub evaluate_from :
      (Descriptor → S → Result E (Option Bool) × S) → List Descriptor → S → Result E Verdict × S
  unfolding after_probe
  evaluate_from probe [] s = (ok usable, s)
  evaluate_from probe (d ∷ ds) s = after_probe d (evaluate_from probe ds) (probe d s)

  -- `evaluateOfferLiveness`
  pub evaluate :
      (Descriptor → S → Result E (Option Bool) × S) → Validation → S → Result E Verdict × S
  unfolding evaluate_from ordered_descriptors
  evaluate probe v s = evaluate_from probe (ordered_descriptors v) s

-- The queries of the database: how many rows each finds.
pub record Database (E : Type 0) : Type 0 where
  pub spent_rows : Text → Result E ℕ
  pub created_rows : UnshieldedSpendRef → Result E ℕ
  pub root_rows : Text → ℕ → Result E ℕ

-- `rootCutoff`, and how often `getRootCutoffMs` was called
pub record CutoffState (E : Type 0) : Type 0 where
  pub root_cutoff : Option (Result E ℕ)
  pub calls : ℕ

module _ {E : Type 0} where
  -- what `getRootCutoff` returns, and the state it leaves; `fetch` gives the outcome of each call
  pub get_cutoff : (ℕ → Result E ℕ) → CutoffState E → Result E ℕ × CutoffState E
  get_cutoff fetch s = elim s.root_cutoff [
    | some r ↦ (r, s)
    | none ↦ (fetch s.calls, record { root_cutoff = some (fetch s.calls); calls = s.calls + 1 })
  ]

  abbrev pub none_found : ℕ → Result E (Option Bool)
  none_found n = ok (some (n == 0))

  abbrev pub some_found : ℕ → Result E (Option Bool)
  some_found n = ok (some (ltb 0 n))

  -- the query for a root, once the cutoff is there
  pub probe_root :
      Database E → Text → Result E ℕ × CutoffState E → Result E (Option Bool) × CutoffState E
  probe_root db r (cutoff, s) = ((cutoff >>= λ c. db.root_rows r c >>= some_found), s)

  -- the probe of `evaluateOfferLivenessFromDatabase`
  pub database_probe :
      Database E
      → (ℕ → Result E ℕ)
      → Descriptor
      → CutoffState E
      → Result E (Option Bool) × CutoffState E
  unfolding probe_root get_cutoff
  database_probe db fetch (nullifier n) s = ((db.spent_rows n >>= none_found), s)
  database_probe db fetch (unshielded r) s = ((db.created_rows r >>= some_found), s)
  database_probe db fetch (root r) s = probe_root db r (get_cutoff fetch s)

  -- `evaluateOfferLivenessFromDatabase`
  pub evaluate_from_database :
      Database E → (ℕ → Result E ℕ) → Validation → Result E Verdict × CutoffState E
  unfolding evaluate database_probe
  evaluate_from_database db fetch v =
      evaluate (database_probe db fetch) v (record { root_cutoff = none; calls = 0 })

  -- `live` of one round in `evaluateOfferLivenessInStateMachine`
  pub is_live : Database E → ℕ → Descriptor → Result E Bool
  is_live db cutoff (nullifier n) = db.spent_rows n >>= λ k. ok (k == 0)
  is_live db cutoff (unshielded r) = db.created_rows r >>= λ k. ok (ltb 0 k)
  is_live db cutoff (root r) = db.root_rows r cutoff >>= λ k. ok (ltb 0 k)

  pub after_live : Descriptor → Result E Verdict → Result E Bool → Result E Verdict
  after_live d rest (err e) = err e
  after_live d rest (ok true) = rest
  after_live d rest (ok false) = ok (failed (liveness_failure d not_live))

  -- the loop of `evaluateOfferLivenessInStateMachine`
  pub machine_from : Database E → ℕ → List Descriptor → Result E Verdict
  unfolding after_live is_live
  machine_from db cutoff [] = ok usable
  machine_from db cutoff (d ∷ ds) = after_live d (machine_from db cutoff ds) (is_live db cutoff d)

  -- `evaluateOfferLivenessInStateMachine`
  pub evaluate_in_state_machine : Database E → ℕ → Validation → Result E Verdict
  unfolding machine_from ordered_descriptors
  evaluate_in_state_machine db cutoff v = machine_from db cutoff (ordered_descriptors v)
