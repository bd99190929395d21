-- ===== src/Controller/Params.antt =====
-- pkg/driver/params.go: the parameters of a snapshot class. Floating-point numbers and the quantities of
-- Kubernetes are parameters.
use csi_hostpath.Base.{
  ◌∷◌, [], ◌⊎◌, inl, inr, Bool, true, false, ◌||◌, Option, none, some, Text, text, Outcome, ok, err,
  ◌++◌, ◌==◌, nat_eq, list_eq, if◌then◌else◌,
}
use csi_hostpath.Base.Dict.{Dict, lookup}
use csi_hostpath.Base.Int.{ℤ, pos, ltb_ℤ}

-- `float64` with `ParseFloat`, `<` and the conversion of an int64, and `ParseQuantity` followed by
-- `AsInt64`, which gives 0 where the quantity is no int64
pub record Numbers : Type 1 where
  pub Float : Type 0
  pub parse_float : Text → Text ⊎ Float
  pub less : Float → Float → Bool
  pub float64 : ℤ → Float
  pub parse_quantity : Text → Text ⊎ ℤ

pub record SnapshotParams (F : Type 0) : Type 0 where
  pub snap_size : F
  pub abs_snap_size : Bool

-- What stands before a percent sign at the end
unfoldable pub percentage : Text → Option Text
percentage [] = none
percentage (c ∷ []) = if c == b'%' then some [] else none
percentage (c ∷ d ∷ s) = elim (percentage (d ∷ s)) [ none ↦ none | some p ↦ some (c ∷ p) ]

module _ (N : Numbers) where
  abbrev relative : Text → Text ⊎ N.Float → Outcome Text (SnapshotParams N.Float)
  unfolding text
  relative size (inl e) = err e
  relative size (inr f) =
      if N.less f (N.float64 (pos 1)) || N.less (N.float64 (pos 100)) f
      then err (text "snapSize percentage should be between 1 and 100, found " ++ size)
      else ok (record { snap_size = f; abs_snap_size = false })

  abbrev absolute : Text → Text ⊎ ℤ → Outcome Text (SnapshotParams N.Float)
  unfolding text
  absolute size (inl e) = err e
  absolute size (inr n) =
      if ltb_ℤ n (pos 1)
      then err (text "absolute snapSize should greater than 0, found " ++ size)
      else ok (record { snap_size = N.float64 n; abs_snap_size = true })

  abbrev size_params : Text → Option Text → Outcome Text (SnapshotParams N.Float)
  size_params size (some p) = relative size (N.parse_float p)
  size_params size none = absolute size (N.parse_quantity size)

  -- `NewSnapshotParams`
  unfoldable pub new_snapshot_params : Dict Text Text → Outcome Text (SnapshotParams N.Float)
  unfolding lookup percentage text
  new_snapshot_params m = elim (lookup (text "snapsize") m) [
    | none ↦ ok (record { snap_size = N.float64 (pos 0); abs_snap_size = false })
    | some size ↦ size_params size (percentage size)
  ]
