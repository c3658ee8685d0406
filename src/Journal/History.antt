-- ===== src/Journal/History.antt =====
-- Histories of the journal: what holds of every journal that its operations reach.
pub mod Soundness
pub mod Lives
pub mod Ledger
pub mod Spending
mod Tests
use zswap_offerfiles_kernel.Prelude.{ℕ, ◌≡◌, true, ok}
use zswap_offerfiles_kernel.Prelude.Int.{ℤ}
use zswap_offerfiles_kernel.Prelude.Text.{Text}
use zswap_offerfiles_kernel.Prelude.Number.{Number, integer}
use zswap_offerfiles_kernel.Journal.{
  LifecycleState, Receipt, PreparedOperation, TransitionPatch, le_num,
}
use zswap_offerfiles_kernel.Journal.Store.{DustState, Journal, Options}
use zswap_offerfiles_kernel.Journal.Operations.{
  create_prepared, transition, record_receipt, prune_terminal,
}
use zswap_offerfiles_kernel.Journal.Dust.{
  DustRequest, DustResult, reserve_dust, transition_dust, prune_dust,
}

-- `close`; the checkpoint is the database's
pub close : Journal → Journal
close s = record s { is_closed = true }

-- The options of the journal, and what its pages take.
pub record Setting : Type 0 where
  pub options : Options
  pub bytes_used : Journal → ℕ

-- One call at a time `now`; a call that throws leaves the journal as it is.
pub data Step (w : Setting) (now : Number) : Journal → Journal → Type 0 where
  creates :
      (s : Journal) (input : PreparedOperation)
      → Step w now s (create_prepared w.options w.bytes_used input now s).1
  transitions :
      (s : Journal) (key : Text) (expected next : LifecycleState) (patch : TransitionPatch)
      → Step w now s (transition w.options w.bytes_used key expected next patch now s).1
  records :
      (s : Journal) (key : Text) (receipt : Receipt)
      → Step w now s (record_receipt w.options w.bytes_used key receipt now s).1
  prunes :
      (s t : Journal) (at : Number) (count : ℕ)
      → prune_terminal w.options w.bytes_used at s ≡ ok (count, t)
      → Step w now s t
  reserves :
      (s t : Journal) (request : DustRequest) (result : DustResult)
      → reserve_dust w.options w.bytes_used request now s ≡ ok (result, t)
      → Step w now s t
  moves :
      (s t : Journal) (key : Text) (next : DustState)
      → transition_dust key next now s ≡ ok t
      → Step w now s t
  prunes_dust :
      (s t : Journal) (window at : Number) → prune_dust window at s ≡ ok t → Step w now s t
  closes : (s : Journal) → Step w now s (close s)

-- Calls one after the other, each at whatever time the clock reads.
pub data Run (w : Setting) (s : Journal) : Journal → Type 0 where
  here : Run w s s
  later : {now : Number} {t u : Journal} → Run w s t → Step w now t u → Run w s u
