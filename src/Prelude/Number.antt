-- ===== src/Prelude/Number.antt =====
-- A JavaScript `number` as an argument that must be an integer.
use zswap_offerfiles_kernel.Prelude.Int.{ℤ}

-- `inexact` is a fraction, an infinity or NaN.
pub data Number : Type 0 where
  integer : ℤ → Number
  inexact : Number
