-- ===== src/Balance/Merge/Values.antt =====
-- Merging in order: the map of net amounts matters only by its values, and a mask fixes these.
use zswap_offerfiles_kernel.Prelude.{
  ℕ, zero, suc, ◌+◌, ◌*◌, ◌/◌, ◌%◌, ◌≡◌, refl, sym, ◌∙◌, Bool, true, false, arith, if◌then◌else◌,
  ◌==◌, Bool-cases, inl, inr, Option, none, some, List, [], ◌∷◌,
}
use zswap_offerfiles_kernel.Prelude.Int.{ℤ, pos, ◌+ℤ◌, int_laws, eq_of_parts, +ℤ_zero, +ℤ_assoc}
use zswap_offerfiles_kernel.Prelude.Text.{Text, eq_text, eq_text_iff}
use zswap_offerfiles_kernel.Prelude.Map.{Dict, lookup-insert, lookup-erase}
use zswap_offerfiles_kernel.Balance.{TokenBalance}
use zswap_offerfiles_kernel.Balance.Merge.{
  MergeEntry, value_at, put_value, is_over, add_net_rows, has_bit, set_bit,
}

-- The two maps hold the same amount of every token.
abbrev pub Same : Dict ℤ → Dict ℤ → Type 0
Same d d' = (t : Text) → value_at t d ≡ value_at t d'

pub value_at-put_value :
    (t j : Text) (v : ℤ) (d : Dict ℤ)
    → value_at j (put_value t v d) ≡ (if eq_text t j then v else value_at j d)
unfolding value_at put_value
value_at-put_value t j v d =
    ground (arith, lookup-insert t j v d, lookup-erase t j d, eq_of_parts v (pos 0))

put_value-Same :
    (t : Text) (v : ℤ) (d d' : Dict ℤ) → Same d d' → Same (put_value t v d) (put_value t v d')
put_value-Same t v d d' h j = rw (value_at-put_value t j v d, value_at-put_value t j v d', h j)

abbrev pub Agree : Option (Dict ℤ) → Option (Dict ℤ) → Type 0
Agree none none = Unit
Agree none (some b) = ⊥
Agree (some a) none = ⊥
Agree (some a) (some b) = Same a b

pub add_net_rows-Same :
    (bound : ℤ) (rs : List TokenBalance) (d d' : Dict ℤ)
    → Same d d'
    → Agree (add_net_rows bound rs d) (add_net_rows bound rs d')
unfolding add_net_rows
add_net_rows-Same bound [] d d' h = h
add_net_rows-Same bound (r ∷ rs) d d' h = rw (h r.token) (elim (Bool-cases (is_over bound now)) [
  | inl over ↦ rw over tt
  | inr within ↦ rw within (add_net_rows-Same bound rs _ _ (put_value-Same r.token now d d' h))
])
  where
    now : ℤ
    now = value_at r.token d' +ℤ r.net

-- the net amount of some rows in a token
unfoldable pub row_sum : Text → List TokenBalance → ℤ
row_sum t [] = pos 0
row_sum t (r ∷ rs) = if eq_text r.token t then r.net +ℤ row_sum t rs else row_sum t rs

pub add_net_rows_value :
    (bound : ℤ) (rs : List TokenBalance) (d d' : Dict ℤ) (t : Text)
    → add_net_rows bound rs d ≡ some d'
    → value_at t d' ≡ value_at t d +ℤ row_sum t rs
unfolding add_net_rows row_sum
add_net_rows_value bound [] d d' t h =
    let e : d ≡ d' = cc in rw (← e) (sym (+ℤ_zero (value_at t d)))
add_net_rows_value bound (r ∷ rs) d d' t h = ground (
  arith,
  add_net_rows_value bound rs (put_value r.token (value_at r.token d +ℤ r.net) d) d' t,
  value_at-put_value r.token t (value_at r.token d +ℤ r.net) d,
  eq_text_iff r.token t,
  +ℤ_assoc (value_at t d) r.net (row_sum t rs),
)

-- the sum of the rows of the entries that a mask holds
pub total : ℕ → List MergeEntry → Text → ℤ
total mask [] t = pos 0
total mask (e ∷ es) t = (if mask % 2 == 1 then row_sum t e.rows else pos 0) +ℤ total (mask / 2) es t

pub total-zero : (es : List MergeEntry) (t : Text) → total 0 es t ≡ pos 0
unfolding total
total-zero [] t = refl
total-zero (e ∷ es) t = rw (total-zero es t) (omega int_laws)

unfoldable pub entry_at : List MergeEntry → ℕ → Option MergeEntry
entry_at [] i = none
entry_at (e ∷ es) zero = some e
entry_at (e ∷ es) (suc i) = entry_at es i

pub total-set_bit :
    (es : List MergeEntry) (mask i : ℕ) (t : Text) (e : MergeEntry)
    → entry_at es i ≡ some e
    → has_bit mask i ≡ false
    → total (set_bit mask i) es t ≡ total mask es t +ℤ row_sum t e.rows
unfolding total entry_at has_bit set_bit
total-set_bit [] mask i t e h b = cc
total-set_bit (f ∷ es) mask zero t e h b =
    let half : (if mask % 2 == 1 then mask else mask + 1) / 2 ≡ mask / 2 = ground arith in
    let f_is : f ≡ e = cc in
    let one : ((if mask % 2 == 1 then mask else mask + 1) % 2 == 1) ≡ true = ground arith in
    rw (half, one, b, f_is) (omega int_laws)
total-set_bit (f ∷ es) mask (suc i) t e h b =
    let half : (set_bit (mask / 2) i * 2 + mask % 2) / 2 ≡ set_bit (mask / 2) i = omega arith in
    let low : (set_bit (mask / 2) i * 2 + mask % 2) % 2 ≡ mask % 2 = omega arith in
    rw (half, low, total-set_bit es (mask / 2) i t e h b) (omega int_laws)

-- there is a value, and it passes the test
unfoldable pub holds : {A : Type 0} → (A → Bool) → Option A → Bool
holds p none = false
holds p (some a) = p a

holds_path :
    {A : Type 0} {p q : A → Bool} (o : Option A) → ((a : A) → p a ≡ q a) → holds p o ≡ holds q o
unfolding holds
holds_path none h = refl
holds_path (some a) h = h a

holds-Agree :
    (p : Dict ℤ → Bool)
    → ((a b : Dict ℤ) → Same a b → p a ≡ p b)
    → (x y : Option (Dict ℤ)) → Agree x y
    → holds p x ≡ holds p y
unfolding holds
holds-Agree p h none none a = refl
holds-Agree p h none (some b) a = absurd a
holds-Agree p h (some b) none a = absurd a
holds-Agree p h (some b) (some c) a = h b c a

module _ (entries : List MergeEntry) (bound : ℤ) where
  -- The map holds the sums of the entries in the mask.
  abbrev pub Represents : ℕ → Dict ℤ → Type 0
  Represents mask d = (t : Text) → value_at t d ≡ total mask entries t

  pub Represents-set_bit :
      (mask i : ℕ) (e : MergeEntry) (d d' : Dict ℤ)
      → Represents mask d
      → entry_at entries i ≡ some e
      → has_bit mask i ≡ false
      → add_net_rows bound e.rows d ≡ some d'
      → Represents (set_bit mask i) d'
  Represents-set_bit mask i e d d' r h b k t =
      rw (add_net_rows_value bound e.rows d d' t k, r t, total-set_bit entries mask i t e h b)

  pub Represents-Same :
      (mask : ℕ) (d d' : Dict ℤ) → Represents mask d → Represents mask d' → Same d d'
  Represents-Same mask d d' r r' t = r t ∙ sym (r' t)

  -- Merging the entries in this order never leaves the range of the signed deltas.
  unfoldable pub is_safe : Dict ℤ → List ℕ → Bool
  unfolding holds
  is_safe d [] = true
  is_safe d (i ∷ is) =
      holds (λ e. holds (λ next. is_safe next is) (add_net_rows bound e.rows d))
        (entry_at entries i)

  pub is_safe-Same : (is : List ℕ) (d d' : Dict ℤ) → Same d d' → is_safe d is ≡ is_safe d' is
  unfolding is_safe
  is_safe-Same [] d d' h = refl
  is_safe-Same (i ∷ is) d d' h = holds_path (entry_at entries i) λ e.
      holds-Agree (λ next. is_safe next is) (λ a b. is_safe-Same is a b) _ _
        (add_net_rows-Same bound e.rows d d' h)
