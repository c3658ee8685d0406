-- ===== src/Liveness/Tests.antt =====
-- Two offers: a spent nullifier makes one of them unusable.
use zswap_offerfiles_kernel.Prelude.{
  ℕ, ◌≡◌, ◌≤◌, refl, some, [], ◌∷◌, if◌then◌else◌, ltb, ok, Result,
}
use zswap_offerfiles_kernel.Prelude.Text.{Text, codes, eq_text}
use zswap_offerfiles_kernel.Liveness.{
  UnshieldedSpendRef, Validation, nullifier, not_live, failed, ordered_descriptors,
  liveness_failure, Database, evaluate_from_database, is_live, machine_from, after_live,
  evaluate_in_state_machine,
}
use zswap_offerfiles_kernel.Liveness.Verdicts.{
  evaluations_agree, references, Decides, evaluate_in_state_machine-Decides,
}

abbrev utxo : UnshieldedSpendRef
utxo = record { owner = codes "o"; intent_hash = codes "i"; output_no = 0 }

abbrev offer : Validation
offer = record {
  nullifiers = some (codes "n1" ∷ codes "n2" ∷ []);
  unshielded_spends = some (utxo ∷ []);
  input_roots = some (codes "r1" ∷ codes "r2" ∷ []);
}

-- `n2` is spent; a root is live from the time 50 on
abbrev rows : Database Text
rows = record {
  spent_rows = λ n. if eq_text n (codes "n2") then ok 1 else ok 0;
  created_rows = λ r. ok 1;
  root_rows = λ r cutoff. if ltb 50 cutoff then ok 0 else ok 1;
}

abbrev clock : ℕ → Result Text ℕ
clock calls = ok 40

spent_offer :
    evaluate_in_state_machine rows 40 offer
    ≡ ok (failed (liveness_failure (nullifier (codes "n2")) not_live))
unfolding evaluate_in_state_machine ordered_descriptors machine_from after_live is_live eq_text
spent_offer = refl

evaluations_agree_example :
    ((evaluate_from_database rows clock offer).0 ≡ evaluate_in_state_machine rows 40 offer)
    × ((evaluate_from_database rows clock offer).1.calls ≤ 1)
evaluations_agree_example = evaluations_agree rows clock 40 offer refl

spent_offer-Decides :
    Decides rows 40 (failed (liveness_failure (nullifier (codes "n2")) not_live)) (references offer)
spent_offer-Decides =
    evaluate_in_state_machine-Decides rows 40 offer
      (failed (liveness_failure (nullifier (codes "n2")) not_live)) spent_offer
