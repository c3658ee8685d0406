-- ===== src/Prelude/Json.antt =====
-- A JavaScript value that comes from outside, and the reads that its parsers make.
use Prim.Native.Nat.{ℕ}
use mathlib.Core.Bool.{Bool}
use mathlib.Core.List.{List, [], ◌∷◌}
use zswap_offerfiles_kernel.Prelude.Tests.{if◌then◌else◌}
use zswap_offerfiles_kernel.Prelude.Text.{Text, eq_text}

mutual
  pub data Json : Type 0 where
    undefined null : Json
    bool : Bool → Json
    num : ℕ → Json
    str : Text → Json
    arr : Items → Json
    obj : Fields → Json

  pub data Items : Type 0 where
    nil : Items
    cons : Json → Items → Items

  pub data Fields : Type 0 where
    end : Fields
    field : Text → Json → Fields → Fields

unfoldable pub items_list : Items → List Json
items_list nil = []
items_list (cons j js) = j ∷ items_list js

read_field : Text → Fields → Json
unfolding eq_text
read_field k end = undefined
read_field k (field j v fs) = if eq_text j k then v else read_field k fs

-- `value.k`, of a value that is an object; an array has none of the fields that are read here
unfoldable pub get : Text → Json → Json
unfolding read_field
get k (obj fs) = read_field k fs
get k _ = undefined
