-- ===== src/Prelude/Map.antt =====
-- `Map<string, V>` and `Set<string>`, in insertion order.
use mathlib.Core.Path.{◌≡◌, refl}
use mathlib.Core.Bool.{Bool, true, false, not, ◌&&◌, ◌||◌}
use mathlib.Core.List.{List, [], ◌∷◌, ◌++◌}
use mathlib.Core.Option.{Option, none, some}
use native.Mathlib.Omega.{arith}
use zswap_offerfiles_kernel.Prelude.Tests.{if◌then◌else◌, Bool-cases}
use zswap_offerfiles_kernel.Prelude.Lists.{All}
use mathlib.Core.Logic.{inl, inr}
use zswap_offerfiles_kernel.Prelude.Text.{Text, eq_text, eq_text_iff}

abbrev pub Dict {ℓ} : Type ℓ → Type ℓ
Dict V = List (Text × V)

module _ {ℓ} {V : Type ℓ} where
  -- `get`; `none` is `undefined`
  unfoldable pub lookup : Text → Dict V → Option V
  lookup k [] = none
  lookup k ((j, v) ∷ m) = if eq_text j k then some v else lookup k m

  -- `has`
  unfoldable pub has : Text → Dict V → Bool
  has k [] = false
  has k ((j, v) ∷ m) = eq_text j k || has k m

  -- `set`: a key that is there keeps its place
  unfoldable pub insert : Text → V → Dict V → Dict V
  insert k v [] = (k, v) ∷ []
  insert k v ((j, w) ∷ m) = if eq_text j k then (k, v) ∷ m else (j, w) ∷ insert k v m

  -- `delete`
  unfoldable pub erase : Text → Dict V → Dict V
  erase k [] = []
  erase k ((j, w) ∷ m) = if eq_text j k then erase k m else (j, w) ∷ erase k m

  pub lookup-insert :
      (k j : Text) (v : V) (m : Dict V)
      → lookup j (insert k v m) ≡ (if eq_text k j then some v else lookup j m)
  unfolding lookup insert
  lookup-insert k j v [] = refl
  lookup-insert k j v ((i, w) ∷ m) =
      ground (arith, eq_text_iff k j, eq_text_iff i k, eq_text_iff i j, lookup-insert k j v m)

  pub lookup-erase :
      (k j : Text) (m : Dict V) → lookup j (erase k m) ≡ (if eq_text k j then none else lookup j m)
  unfolding lookup erase
  lookup-erase k j [] = ground arith
  lookup-erase k j ((i, w) ∷ m) =
      ground (arith, eq_text_iff k j, eq_text_iff i k, eq_text_iff i j, lookup-erase k j m)

  pub has-lookup :
      (k : Text) (m : Dict V) → has k m ≡ (elim (lookup k m) [ none ↦ false | some _ ↦ true ])
  unfolding lookup has
  has-lookup k [] = refl
  has-lookup k ((j, w) ∷ m) = ground (arith, has-lookup k m)

module _ {ℓ} {V : Type ℓ} where
  -- No key is there twice, as in every `Map`.
  abbrev pub Distinct : Dict V → Type 0
  Distinct [] = Unit
  Distinct ((k, v) ∷ m) = (has k m ≡ false) × Distinct m

  pub has-insert :
      (k j : Text) (v : V) (m : Dict V) → has j (insert k v m) ≡ (eq_text k j || has j m)
  unfolding has insert
  has-insert k j v [] = refl
  has-insert k j v ((i, w) ∷ m) = ground (arith, eq_text_iff i k, has-insert k j v m)

  pub insert-Distinct : (k : Text) (v : V) (m : Dict V) → Distinct m → Distinct (insert k v m)
  unfolding insert has
  insert-Distinct k v [] h = (refl, tt)
  insert-Distinct k v ((j, w) ∷ m) h =
      ground
        (arith, eq_text_iff j k, eq_text_iff k j, has-insert k j v m, insert-Distinct k v m h.1)

  -- an entry that is not there is not found
  pub lookup-none_of_has : (k : Text) (m : Dict V) → has k m ≡ false → lookup k m ≡ none
  unfolding has lookup
  lookup-none_of_has k [] h = refl
  lookup-none_of_has k ((j, w) ∷ m) h = ground (arith, lookup-none_of_has k m)

module _ {ℓ} {V : Type ℓ} where
  pub has-erase : (k j : Text) (m : Dict V) → has j (erase k m) ≡ (not (eq_text k j) && has j m)
  unfolding has erase
  has-erase k j [] = ground arith
  has-erase k j ((i, w) ∷ m) =
      ground (arith, eq_text_iff k j, eq_text_iff i k, eq_text_iff i j, has-erase k j m)

  pub erase-Distinct : (k : Text) (m : Dict V) → Distinct m → Distinct (erase k m)
  unfolding erase
  erase-Distinct k [] h = tt
  erase-Distinct k ((j, w) ∷ m) h = ground (arith, has-erase k j m, erase-Distinct k m h.1)

  module _ {κ} (P : Text × V → Type κ) where
    pub All-insert : (k : Text) (v : V) (m : Dict V) → P (k, v) → All P m → All P (insert k v m)
    unfolding insert
    All-insert k v [] p a = (p, tt)
    All-insert k v ((j, w) ∷ m) p a = elim (Bool-cases (eq_text j k)) [
      | inl e ↦ rw e (p, a.1)
      | inr e ↦ rw e (a.0, All-insert k v m p a.1)
    ]

    pub All-erase : (k : Text) (m : Dict V) → All P m → All P (erase k m)
    unfolding erase
    All-erase k [] a = tt
    All-erase k ((j, w) ∷ m) a = elim (Bool-cases (eq_text j k)) [
      | inl e ↦ rw e (All-erase k m a.1)
      | inr e ↦ rw e (a.0, All-erase k m a.1)
    ]

-- A set of strings.
unfoldable pub mem : Text → List Text → Bool
mem k [] = false
mem k (j ∷ s) = eq_text j k || mem k s

-- `add`
unfoldable pub add : Text → List Text → List Text
unfolding mem
add k s = if mem k s then s else s ++ k ∷ []

-- `delete`
unfoldable pub remove : Text → List Text → List Text
remove k [] = []
remove k (j ∷ s) = if eq_text j k then remove k s else j ∷ remove k s

pub mem-append : (k : Text) (s t : List Text) → mem k (s ++ t) ≡ mem k s || mem k t
unfolding mem
mem-append k [] t = refl
mem-append k (j ∷ s) t = ground (arith, mem-append k s t)

pub mem-add : (k j : Text) (s : List Text) → mem j (add k s) ≡ eq_text k j || mem j s
unfolding mem add
mem-add k j s = ground (arith, mem-append j s (k ∷ []), eq_text_iff k j)

pub mem-remove : (k j : Text) (s : List Text) → mem j (remove k s) ≡ not (eq_text k j) && mem j s
unfolding mem remove
mem-remove k j [] = ground arith
mem-remove k j (i ∷ s) =
    ground (arith, eq_text_iff k j, eq_text_iff i k, eq_text_iff i j, mem-remove k j s)
