-- ===== src/SyncHealth/Verdict.antt =====
-- What a verdict "ok" says of the positions of the node.
use zswap_offerfiles_kernel.Prelude.{
  ◌≡◌, refl, sym, ap, subst, ◌∙◌, inl, inr, Bool, true, false, ◌||◌, Option, none, some,
  if◌then◌else◌, arith, Bool-cases, Option-cases,
}
use zswap_offerfiles_kernel.Prelude.Int.{ℤ, pos, ◌-ℤ◌, ◌*ℤ◌, ltb_ℤ, ◌≤ℤ◌, ◌<ℤ◌}
use zswap_offerfiles_kernel.SyncHealth.{
  Reading, finite, not_finite, ReadinessInput, in_sync, syncing, error, is_not_positive,
  is_not_natural, known, is_behind, is_late, max_midnight_lag_blocks, max_celestia_lag_blocks,
  derive_sync_status,
}

-- a position and a tip that are known, natural, and not too far apart
pub record IsNear (max : ℤ) (current tip : Option Reading) : Type 0 where
  pub at : ℤ
  pub head : ℤ
  pub current_is : current ≡ some (finite at)
  pub tip_is : tip ≡ some (finite head)
  pub natural : (pos 0 ≤ℤ at) × (pos 0 ≤ℤ head)
  pub near : head -ℤ at ≤ℤ max

known-natural :
    (r : Option Reading) (n : ℤ) → known r ≡ some n → (r ≡ some (finite n)) × (pos 0 ≤ℤ n)
known-natural none n h = cc
known-natural (some not_finite) n h = cc
known-natural (some (finite m)) n h = elim (Bool-cases (ltb_ℤ m (pos 0))) [
  | inl e ↦ let bad : none ≡ some n = sym (rw e refl) ∙ h in cc
  | inr e ↦
      let same : some m ≡ some n = sym (rw e refl) ∙ h in
      let same' : m ≡ n = cc in
      (ap (λ k. some (finite k)) same', subst (λ k. pos 0 ≤ℤ k) same' (ground arith))
]

is_behind-IsNear :
    (max : ℤ) (current tip : Option Reading)
    → is_behind max (known current) (known tip) ≡ false
    → IsNear max current tip
is_behind-IsNear max current tip h = elim (Option-cases (known current)) [
  | inl e ↦ let bad : true ≡ false = sym (rw e refl) ∙ h in cc
  | inr (a, e) ↦ elim (Option-cases (known tip)) [
    | inl f ↦ let bad : true ≡ false = sym (rw (e, f) refl) ∙ h in cc
    | inr (b, f) ↦
        let test : ltb_ℤ max (b -ℤ a) ≡ false = sym (rw (e, f) refl) ∙ h in
        record {
          at = a;
          head = b;
          current_is = (known-natural current a e).0;
          tip_is = (known-natural tip b f).0;
          natural = ((known-natural current a e).1, (known-natural tip b f).1);
          near = ground arith;
        }
  ]
]

-- the lag is known, not negative, and at most two blocks; both numbers that it is measured by are
-- positive
pub record IsCurrent (i : ReadinessInput) : Type 0 where
  pub lag : ℤ
  pub block : ℤ
  pub ntp : ℤ
  pub ntp_is : i.ntp_current ≡ finite ntp
  pub lag_is : i.ntp_lag_thousandths ≡ finite lag
  pub block_is : i.ntp_block_ms ≡ finite block
  pub positive : (pos 0 <ℤ ntp) × (pos 0 <ℤ block)
  pub bounds : (pos 0 ≤ℤ lag) × (lag ≤ℤ block *ℤ pos 2)

numbers-IsCurrent :
    (i : ReadinessInput) (ntp lag block : Reading)
    → i.ntp_current ≡ ntp
    → i.ntp_lag_thousandths ≡ lag
    → i.ntp_block_ms ≡ block
    → is_not_positive ntp || (is_not_positive block || is_not_natural lag) ≡ false
    → is_late lag block ≡ false
    → IsCurrent i
numbers-IsCurrent i (finite n) (finite l) (finite b) e f g h late = record {
  lag = l;
  block = b;
  ntp = n;
  ntp_is = e;
  lag_is = f;
  block_is = g;
  positive = (ground arith, ground arith);
  bounds = (ground arith, ground arith);
}
numbers-IsCurrent i not_finite lag block e f g h late = cc
numbers-IsCurrent i (finite n) lag not_finite e f g h late =
    let bad : true ≡ false = ground arith in cc
numbers-IsCurrent i (finite n) not_finite (finite b) e f g h late =
    let bad : true ≡ false = ground arith in cc

-- The verdict is "ok" only if the positions and the tips of both chains are known, finite and not
-- negative, Midnight is at most 12 blocks behind its tip and Celestia at most 4, the NTP block and
-- its length are positive, and the lag is at most two blocks.
pub derive_sync_status-IsNear :
    (i : ReadinessInput)
    → derive_sync_status i ≡ in_sync
    → IsNear (pos 12) i.midnight_current i.midnight_tip
      × IsNear (pos 4) i.celestia_current i.celestia_tip
      × IsCurrent i
unfolding derive_sync_status
derive_sync_status-IsNear i h =
    let bad_numbers =
      is_not_positive i.ntp_current
      || (is_not_positive i.ntp_block_ms || is_not_natural i.ntp_lag_thousandths) in
    let m_behind =
      is_behind max_midnight_lag_blocks (known i.midnight_current) (known i.midnight_tip) in
    let c_behind =
      is_behind max_celestia_lag_blocks (known i.celestia_current) (known i.celestia_tip) in
    let late = is_late i.ntp_lag_thousandths i.ntp_block_ms in
    let (e0, e1, e2, e3) = passed bad_numbers late m_behind c_behind h in
    (
      is_behind-IsNear (pos 12) i.midnight_current i.midnight_tip e2,
      is_behind-IsNear (pos 4) i.celestia_current i.celestia_tip e3,
      numbers-IsCurrent i i.ntp_current i.ntp_lag_thousandths i.ntp_block_ms refl refl refl e0 e1,
    )
  where
    passed :
        (a b c d : Bool)
        → (if a
            then error
            else if b
            then syncing
            else if c
            then syncing
            else if d
            then syncing
            else in_sync)
          ≡ in_sync
        → (a ≡ false) × (b ≡ false) × (c ≡ false) × (d ≡ false)
    passed true b c d h = cc
    passed false true c d h = cc
    passed false false true d h = cc
    passed false false false true h = cc
    passed false false false false h = (refl, refl, refl, refl)
