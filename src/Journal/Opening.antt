-- ===== src/Journal/Opening.antt =====
-- The options of the journal: `normalizeOptions` of packages/solver/src/operation-journal.ts.
use zswap_offerfiles_kernel.Prelude.{
  ℕ, ◌≤◌, ◌*◌, ◌≡◌, refl, subst, Bool, true, false, not, ◌&&◌, Option, none, some, arith, Result,
  ok, ◌>>◌, throw_if, >>-eq-ok, throw_if-eq-ok,
}
use zswap_offerfiles_kernel.Prelude.Int.{pos, negsuc}
use zswap_offerfiles_kernel.Prelude.Text.{Text, codes, eq_text}
use zswap_offerfiles_kernel.Prelude.Number.{Number, integer, inexact}
use zswap_offerfiles_kernel.Journal.{
  JournalError, open_refused, at_least, max_safe_integer, is_safe_from, lt_num, require_text,
  require_safe_integer,
}
use zswap_offerfiles_kernel.Journal.Store.{Options}
use zswap_offerfiles_kernel.Journal.Operations.{or_number}
use zswap_offerfiles_kernel.Journal.Operations.Evolves.{AreOptions}

-- `SolverOperationJournalOptions`, without the clock and the sink of warnings
pub record OpenOptions : Type 0 where
  pub path : Text
  pub allow_memory : Option Bool
  pub max_rows : Option Number
  pub max_bytes : Option Number
  pub max_artifact_bytes : Option Number
  pub reconciliation_margin_ms : Option Number

abbrev pub is_allowed_memory : Option Bool → Bool
is_allowed_memory none = false
is_allowed_memory (some b) = b

abbrev pub is_memory : OpenOptions → Bool
is_memory o = eq_text o.path (codes ":memory:")

abbrev pub default_max_rows : Number
default_max_rows = at_least 10000

abbrev pub default_max_bytes : Number
default_max_bytes = at_least (64 * 1024 * 1024)

abbrev pub default_max_artifact_bytes : Number
default_max_artifact_bytes = at_least (8 * 1024 * 1024)

abbrev pub default_margin_ms : Number
default_margin_ms = at_least (24 * 60 * 60 * 1000)

-- the natural number that a safe integer from 1 is
abbrev pub natural : Number → ℕ
natural (integer (pos n)) = n
natural (integer (negsuc n)) = 0
natural inexact = 0

abbrev pub options_of : Number → Number → Number → Number → Options
options_of max_rows max_bytes max_artifact_bytes margin = record {
  max_rows = natural max_rows;
  max_bytes = natural max_bytes;
  max_artifact_bytes = natural max_artifact_bytes;
  reconciliation_margin_ms = margin;
}

-- the numbers, each a default where it is absent
unfoldable pub check_ceilings : Number → Number → Number → Number → Result JournalError Options
check_ceilings max_rows max_bytes max_artifact_bytes margin = do
  require_safe_integer (codes "maxRows") (at_least 1) max_rows
  require_safe_integer (codes "maxBytes") (at_least (64 * 1024)) max_bytes
  require_safe_integer (codes "maxArtifactBytes") (at_least 1) max_artifact_bytes
  require_safe_integer (codes "reconciliationMarginMs") (at_least 1) margin
  throw_if (lt_num max_bytes max_artifact_bytes) (open_refused (codes "artifact ceiling"))
  ok (options_of max_rows max_bytes max_artifact_bytes margin)

-- `normalizeOptions`
unfoldable pub normalize_options : OpenOptions → Result JournalError Options
unfolding check_ceilings
normalize_options o = do
  require_text (codes "journal path") 4096 o.path
  throw_if (is_memory o && not (is_allowed_memory o.allow_memory)) (open_refused (codes ":memory:"))
  throw_if (not (is_memory o) && is_allowed_memory o.allow_memory)
      (open_refused (codes "allowMemory"))
  check_ceilings (or_number o.max_rows default_max_rows) (or_number o.max_bytes default_max_bytes)
      (or_number o.max_artifact_bytes default_max_artifact_bytes)
      (or_number o.reconciliation_margin_ms default_margin_ms)

natural_bounds :
    (low : ℕ) (n : Number)
    → is_safe_from (at_least low) n ≡ true
    → (low ≤ natural n) × (natural n ≤ max_safe_integer) × (n ≡ integer (pos (natural n)))
unfolding is_safe_from
natural_bounds low (integer (pos n)) h = (ground arith, ground arith, refl)
natural_bounds low (integer (negsuc n)) h = let bad : true ≡ false = ground arith in cc
natural_bounds low inexact h = cc

safe_of :
    (name : Text) (low n : Number)
    → require_safe_integer name low n ≡ ok tt
    → is_safe_from low n ≡ true
unfolding require_safe_integer
safe_of name low n h = let e = throw_if-eq-ok (not (is_safe_from low n)) _ h in ground arith

lt_num_natural :
    (b a : Number)
    → b ≡ integer (pos (natural b))
    → a ≡ integer (pos (natural a))
    → lt_num b a ≡ false
    → natural a ≤ natural b
lt_num_natural (integer (pos m)) (integer (pos n)) f g h = ground arith
lt_num_natural (integer (pos m)) (integer (negsuc n)) f g h = omega arith
lt_num_natural (integer (negsuc m)) a f g h = cc
lt_num_natural (integer m) inexact f g h = cc
lt_num_natural inexact a f g h = cc

check_ceilings_lem :
    (rows bytes artifact margin : Number) (options : Options)
    → check_ceilings rows bytes artifact margin ≡ ok options
    → AreOptions options
      × (options.max_artifact_bytes ≤ options.max_bytes)
      × (64 * 1024 ≤ options.max_bytes)
      × (1 ≤ options.max_rows)
unfolding check_ceilings
check_ceilings_lem rows bytes artifact margin options h =
    let (e0, h0) = >>-eq-ok (require_safe_integer (codes "maxRows") (at_least 1) rows) _ h in
    let (e1, h1) =
      >>-eq-ok (require_safe_integer (codes "maxBytes") (at_least (64 * 1024)) bytes) _ h0 in
    let (e2, h2) =
      >>-eq-ok (require_safe_integer (codes "maxArtifactBytes") (at_least 1) artifact) _ h1 in
    let (e3, h3) =
      >>-eq-ok (require_safe_integer (codes "reconciliationMarginMs") (at_least 1) margin) _ h2 in
    let (e4, h4) =
      >>-eq-ok (throw_if (lt_num bytes artifact) (open_refused (codes "artifact ceiling"))) _ h3 in
    let r = natural_bounds 1 rows (safe_of (codes "maxRows") (at_least 1) rows e0) in
    let b =
      natural_bounds (64 * 1024) bytes
        (safe_of (codes "maxBytes") (at_least (64 * 1024)) bytes e1) in
    let a =
      natural_bounds 1 artifact (safe_of (codes "maxArtifactBytes") (at_least 1) artifact e2) in
    let fits =
      lt_num_natural bytes artifact b.2 a.2 (throw_if-eq-ok (lt_num bytes artifact) _ e4) in
    let same : options_of rows bytes artifact margin ≡ options = cc in
    subst
      (λ (p : Options).
        AreOptions p
        × (p.max_artifact_bytes ≤ p.max_bytes)
        × (64 * 1024 ≤ p.max_bytes)
        × (1 ≤ p.max_rows))
      same
      (
        record {
          artifact = a.1;
          margin = safe_of (codes "reconciliationMarginMs") (at_least 1) margin e3;
        },
        fits,
        b.0,
        r.0,
      )

-- Options that `normalizeOptions` gives are those that the operations rely on: a safe margin and a
-- safe artifact ceiling, which does not exceed the ceiling of the journal, of at least 64 KiB; and
-- there is room for a row.
pub normalize_options-AreOptions :
    (o : OpenOptions) (options : Options)
    → normalize_options o ≡ ok options
    → AreOptions options
      × (options.max_artifact_bytes ≤ options.max_bytes)
      × (64 * 1024 ≤ options.max_bytes)
      × (1 ≤ options.max_rows)
unfolding normalize_options
normalize_options-AreOptions o options h =
    let (e0, h0) = >>-eq-ok (require_text (codes "journal path") 4096 o.path) _ h in
    let (e1, h1) =
      >>-eq-ok (throw_if (is_memory o && not (is_allowed_memory o.allow_memory)) _) _ h0 in
    let (e2, h2) =
      >>-eq-ok (throw_if (not (is_memory o) && is_allowed_memory o.allow_memory) _) _ h1 in
    check_ceilings_lem (or_number o.max_rows default_max_rows)
      (or_number o.max_bytes default_max_bytes)
      (or_number o.max_artifact_bytes default_max_artifact_bytes)
      (or_number o.reconciliation_margin_ms default_margin_ms) options h2
