-- ===== src/HostPath/Frame.antt =====
-- A command on one volume leaves every other volume of the node alone, whichever of its system
-- calls fail.
use csi_hostpath.Base.{
  ℕ, ◌≡◌, refl, ◌∙◌, true, false, [], ◌∷◌, Text, Outcome, ok, err, panic, has_prefix, nat_eq,
  list_eq, ap, sym, subst, Bool-cases, inl, inr,
}
use csi_hostpath.FileSystem.{
  FilePath, components, join_path, Node, dir, file, Files, World, Os, find, IsName, system_call,
  remove_all,
}
use csi_hostpath.FileSystem.Laws.{Kept}
use csi_hostpath.FileSystem.Preserves.{
  Preserves, Preserves-pure, Preserves-fail, Preserves-attempt, Preserves-map_err, Preserves-if,
  Preserves-bind, Preserves-bind_known, Preserves-system_call, system_call-cases, Preserves-then,
  Preserves-os_open, Preserves-read_all, Preserves-exists, Preserves-wider,
}
use csi_hostpath.FileSystem.Frame.{
  Preserves-mkdir_all, Preserves-open_file, Preserves-write_string, Preserves-os_remove,
  Preserves-remove_all,
}
use csi_hostpath.Volume.{Vol}
use csi_hostpath.Volume.Codec.{Codec}
use csi_hostpath.HostPath.{
  vol_path, mount_point, copy_file, make_dir, visit, visit_all, below, extends, walk_entries,
  no_entries, entries_below, copy_tree, remove_vol, remove_snapshot, get_vol_meta, write_meta,
  create_vol, clone_vol, copy_vol, load, ignore, create_snapshot, expand_vol, decoded,
}
use csi_hostpath.HostPath.Keys.{vol_key, vol_path-inside, meta_path-inside, mount_point-inside}
use csi_hostpath.HostPath.CopyPaths.{target-inside}

-- The rules for the system calls that need no path below `p`, and for how calls are put together.
ruleset calls = (
  Preserves-pure, Preserves-fail, Preserves-attempt, Preserves-map_err, Preserves-if,
  Preserves-bind, Preserves-then, Preserves-os_open, Preserves-read_all, Preserves-exists,
)

module _ {p : FilePath} where
  Preserves-copy_file :
      (src des : Text) → has_prefix p (components des) ≡ true → Preserves p (copy_file src des)
  unfolding copy_file
  Preserves-copy_file src des inside = Preserves-then _ _ (Preserves-os_open src) (
      Preserves-then _ _ (Preserves-open_file des true inside)
        (Preserves-bind _ _ (Preserves-read_all src) (λ b. Preserves-write_string des b inside)))

  Preserves-make_dir : (d : Text) → has_prefix p (components d) ≡ true → Preserves p (make_dir d)
  unfolding make_dir
  Preserves-make_dir d inside =
      Preserves-bind _ _ (Preserves-exists d)
        (λ e. Preserves-if e _ _ (Preserves-pure tt) (Preserves-mkdir_all d inside))

module _ (J : Codec) {p : FilePath} where
  Preserves-decoded : (out : Text) (r : Outcome Text Vol) → Preserves p (decoded J out r)
  Preserves-decoded out (ok v) = Preserves-pure v
  Preserves-decoded out (err e) = Preserves-fail _
  Preserves-decoded out panic = record { at = λ w q o. inl refl }

  pub Preserves-get_vol_meta : (vg vol : Text) → Preserves p (get_vol_meta J vg vol)
  unfolding get_vol_meta
  Preserves-get_vol_meta vg vol = search (calls, Preserves-decoded)

  Preserves-write_meta :
      (t : Text) (v : Vol) → has_prefix p (components t) ≡ true → Preserves p (write_meta J t v)
  unfolding write_meta
  Preserves-write_meta t v inside =
      Preserves-then _ _ (Preserves-map_err _ _ (Preserves-open_file t false inside))
        (Preserves-map_err _ _ (Preserves-write_string t _ inside))

found : {E : Type 0} {A : Type 0} {a b : A} → Path (Outcome E A) (ok a) (ok b) → a ≡ b
found e = cc

module _ (J : Codec) {p : FilePath} where
  Preserves-load : (vg vol : Text) → Preserves p (load J vg vol)
  Preserves-load vg vol = Preserves-map_err _ _ (Preserves-get_vol_meta J vg vol)

-- Entries below the mount point of `src`
abbrev AllBelow : FilePath → Files → Type 0
AllBelow m [] = Unit
AllBelow m ((k, n) ∷ es) = (extends m k ≡ true) × AllBelow m es

below-AllBelow : (m : FilePath) (d : Files) → AllBelow m (below m d)
unfolding below
below-AllBelow m [] = tt
below-AllBelow m ((k, n) ∷ d) = elim (Bool-cases (extends m k)) [
  | inl e ↦ rw e (e, below-AllBelow m d)
  | inr e ↦ rw e (below-AllBelow m d)
]

Preserves-walk_entries : {p : FilePath} (t : Text) → Preserves p (walk_entries t)
unfolding walk_entries
Preserves-walk_entries t =
    Preserves-system_call _ _ (λ f. Preserves-pure []) (record { at = λ w q o. inl refl })

module _ (vg src dest : Text) (one : IsName vg) (single : IsName src) where
  Preserves-visit :
      (k : FilePath) (n : Node)
      → extends (components (mount_point vg src)) k ≡ true
      → Preserves
          (components (mount_point vg dest))
          (visit (mount_point vg src) (mount_point vg dest) (k, n))
  unfolding visit
  Preserves-visit k dir h = Preserves-bind _ _ (Preserves-exists _) (λ e.
      Preserves-if e _ _ (Preserves-pure tt)
        (Preserves-make_dir _ (target-inside vg src dest one single k h)))
  Preserves-visit k (file b) h =
      Preserves-then _ _
        (Preserves-attempt _
          (Preserves-copy_file (join_path k) _ (target-inside vg src dest one single k h)))
        (Preserves-pure tt)

  Preserves-visit_all :
      (es : Files)
      → AllBelow (components (mount_point vg src)) es
      → Preserves
          (components (mount_point vg dest))
          (visit_all (mount_point vg src) (mount_point vg dest) es)
  unfolding visit_all
  Preserves-visit_all [] h = Preserves-pure tt
  Preserves-visit_all ((k, n) ∷ es) h =
      Preserves-bind _ _ (Preserves-visit k n h.0) (λ _. Preserves-visit_all es h.1)

  walk_entries-AllBelow :
      (t : Text) (w : World) (es : Files)
      → (walk_entries t w).0 ≡ ok es
      → AllBelow (components t) es
  unfolding walk_entries system_call
  walk_entries-AllBelow t w es h = elim (system_call-cases no_entries (entries_below t) w) [
    | inl (f, w', e, same) ↦ subst (AllBelow (components t)) (found (ap (λ r. r.0) (sym e) ∙ h)) tt
    | inr (w', e, same) ↦
        subst (AllBelow (components t)) (found (ap (λ r. r.0) (sym e) ∙ h))
          (below-AllBelow (components t) w'.files)
  ]

  -- The copy writes below the mount point of the destination only.
  pub Preserves-copy_tree :
      Preserves
        (components (mount_point vg dest))
        (copy_tree (mount_point vg src) (mount_point vg dest))
  unfolding copy_tree
  Preserves-copy_tree =
      Preserves-then _ _
        (Preserves-attempt _ (
          Preserves-bind_known (AllBelow (components (mount_point vg src)))
            (walk_entries (mount_point vg src)) _ (Preserves-walk_entries (mount_point vg src))
            (walk_entries-AllBelow (mount_point vg src)) Preserves-visit_all))
        (Preserves-pure tt)

module _ (J : Codec) (vg name : Text) where
  commands-Preserve :
      (size : ℕ)
      → Preserves (vol_key vg name) (create_vol J vg name size)
        × Preserves (vol_key vg name) (expand_vol J vg name size)
        × Preserves (vol_key vg name) (remove_vol vg name)
        × Preserves (vol_key vg name) (remove_snapshot vg name)
  unfolding create_vol expand_vol remove_vol remove_snapshot
  commands-Preserve size = (
    Preserves-then _ _ (Preserves-map_err _ _ (Preserves-mkdir_all _ (vol_path-inside vg name))) (
        Preserves-then _ _
          (Preserves-map_err _ _ (Preserves-mkdir_all _ (mount_point-inside vg name)))
          (Preserves-then _ _ (Preserves-write_meta J _ _ (meta_path-inside vg name))
            (Preserves-pure name))),
    Preserves-bind _ _ (Preserves-load J vg name) (λ info.
        Preserves-then _ _
          (Preserves-then _ _
            (Preserves-attempt _ (Preserves-os_remove _ (meta_path-inside vg name)))
            (Preserves-pure tt))
          (Preserves-then _ _ (Preserves-write_meta J _ _ (meta_path-inside vg name))
            (Preserves-pure name))),
    Preserves-then _ _ removed (Preserves-pure name),
    Preserves-then _ _ removed (Preserves-pure []),
  )
    where
      removed : Preserves (vol_key vg name) (ignore (remove_all (vol_path vg name)))
      removed =
          Preserves-then _ _
            (Preserves-attempt _ (Preserves-remove_all _ (vol_path-inside vg name)))
            (Preserves-pure tt)

  Preserves-copy_vol :
      (src : Text) → IsName vg → IsName src → Preserves (vol_key vg name) (copy_vol J vg src name)
  unfolding copy_vol
  Preserves-copy_vol src one single = Preserves-bind _ _ (Preserves-load J vg src) (λ info.
      Preserves-then _ _ (Preserves-map_err _ _ (Preserves-mkdir_all _ (vol_path-inside vg name))) (
        Preserves-then _ _
          (Preserves-map_err _ _ (Preserves-mkdir_all _ (mount_point-inside vg name)))
          (Preserves-then _ _
            (Preserves-wider _ _ _ (mount_point-inside vg name)
              (Preserves-copy_tree vg src name one single))
            (Preserves-then _ _ (Preserves-write_meta J _ _ (meta_path-inside vg name))
              (Preserves-pure _)))))

  copies-Preserve :
      (src : Text)
      → IsName vg
      → IsName src
      → Preserves (vol_key vg name) (clone_vol J vg src name)
        × Preserves (vol_key vg name) (create_snapshot J vg name src)
  unfolding clone_vol create_snapshot
  copies-Preserve src one single = (
    Preserves-then _ _ (Preserves-copy_vol src one single) (Preserves-pure name),
    Preserves-bind _ _ (Preserves-copy_vol src one single) (λ v. Preserves-pure v.size),
  )

-- A path is after a call what it was before.
module _ {A : Type 0} (p : FilePath) (m : Os A) (w : World) (q : FilePath) where
  abbrev pub Spared : Type 0
  Spared = Kept p q (find q w) (find q (m w).1)

module _ (J : Codec) (vg name : Text) (w : World) (q : FilePath) where
  -- What a command leaves alone of the tree
  pub commands_spare :
      (size : ℕ)
      → has_prefix (vol_key vg name) q ≡ false
      → Spared (vol_key vg name) (create_vol J vg name size) w q
        × Spared (vol_key vg name) (expand_vol J vg name size) w q
        × Spared (vol_key vg name) (remove_vol vg name) w q
        × Spared (vol_key vg name) (remove_snapshot vg name) w q
  commands_spare size o =
      let (c, e, r, x) = commands-Preserve J vg name size in
      (c.at w q o, e.at w q o, r.at w q o, x.at w q o)

  pub copies_spare :
      (src : Text)
      → IsName vg
      → IsName src
      → has_prefix (vol_key vg name) q ≡ false
      → Spared (vol_key vg name) (clone_vol J vg src name) w q
        × Spared (vol_key vg name) (create_snapshot J vg name src) w q
  copies_spare src one single o =
      let (c, x) = copies-Preserve J vg name src one single in (c.at w q o, x.at w q o)

  -- For plain names of the group and the volume, making a volume, changing its size and removing
  -- it, or a snapshot, leave every file and directory alone that is not in the volume's directory,
  -- whichever system calls fail; only a directory above it may be made.
  pub commands_frame :
      (size : ℕ)
      → IsName vg
      → IsName name
      → has_prefix (vol_key vg name) q ≡ false
      → Spared (vol_key vg name) (create_vol J vg name size) w q
        × Spared (vol_key vg name) (expand_vol J vg name size) w q
        × Spared (vol_key vg name) (remove_vol vg name) w q
        × Spared (vol_key vg name) (remove_snapshot vg name) w q
  commands_frame size one plain o = commands_spare size o
