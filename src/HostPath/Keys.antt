-- ===== src/HostPath/Keys.antt =====
-- Where the paths that the commands format lie in the tree.
use csi_hostpath.Base.{
  ◌==◌, Bool-cases, eq-eq, inl, inr, ◌≡◌, refl, ap, ◌∙◌, true, [], ◌∷◌, ◌++◌, Text, text, nat_eq,
  list_eq, has_prefix, has_prefix-append, has_prefix_refl, has_prefix_cancel, list_beq, false, sym,
  append-nil, append_assoc,
}
use csi_hostpath.FileSystem.{◌//◌, FilePath, components, components-join, parent}
use csi_hostpath.FileSystem.Quiet.{parent-append}
use csi_hostpath.HostPath.{root, group_path, vol_path, meta_path, mount_point}

-- The directory of a volume
abbrev pub vol_key : Text → Text → FilePath
vol_key vg name = components (vol_path vg name)

-- The directory of a group
abbrev pub group_key : Text → FilePath
group_key vg = components (group_path vg)

-- The directory of a volume is in that of its group.
pub vol_key-eq : (vg name : Text) → vol_key vg name ≡ group_key vg ++ components name
vol_key-eq vg name =
    components-join root (vg // name)
    ∙ ap (λ q. components root ++ q) (components-join vg name)
    ∙ sym (append_assoc (components root) (components vg) (components name))
    ∙ ap (λ q. q ++ components name) (sym (components-join root vg))

below_vol :
    (vg name last : Text)
    → components (root // (vg // (name // last))) ≡ vol_key vg name ++ components last
below_vol vg name last = rw (
  components-join root (vg // (name // last)),
  components-join vg (name // last),
  components-join name last,
  components-join root (vg // name),
  components-join vg name,
  append_assoc,
  append_assoc,
)

module _ (vg name : Text) where
  pub vol_path-inside : has_prefix (vol_key vg name) (components (vol_path vg name)) ≡ true
  vol_path-inside = has_prefix_refl (vol_key vg name)

  pub meta_path-inside : has_prefix (vol_key vg name) (components (meta_path vg name)) ≡ true
  meta_path-inside =
      rw (below_vol vg name (text "meta.json"))
        (has_prefix-append (vol_key vg name) (components (text "meta.json")))

  pub mount_point-inside : has_prefix (vol_key vg name) (components (mount_point vg name)) ≡ true
  mount_point-inside =
      rw (below_vol vg name (text "mountpoint"))
        (has_prefix-append (vol_key vg name) (components (text "mountpoint")))

-- The metadata file of a volume
abbrev pub meta_key : Text → Text → FilePath
meta_key vg name = components (meta_path vg name)

root-components : components root ≡ text "opt" ∷ text "csi-hostpath" ∷ []
unfolding root components text
root-components = refl

pub group_key-head : (vg : Text) → group_key vg ≡ text "opt" ∷ (text "csi-hostpath" ∷ components vg)
group_key-head vg = components-join root vg ∙ ap (λ q. q ++ components vg) root-components

meta_component : components (text "meta.json") ≡ text "meta.json" ∷ []
unfolding components text
meta_component = refl

mount_component : components (text "mountpoint") ≡ text "mountpoint" ∷ []
unfolding components text
mount_component = refl

module _ (vg name : Text) where
  -- The directory of a volume lies below /opt, so it is not the root of the tree.
  pub vol_key-head :
      vol_key vg name ≡ text "opt" ∷ (text "csi-hostpath" ∷ (components vg ++ components name))
  vol_key-head =
      components-join root (vg // name)
      ∙ ap (λ q. components root ++ q) (components-join vg name)
      ∙ ap (λ q. q ++ (components vg ++ components name)) root-components

  pub meta_key-eq : meta_key vg name ≡ vol_key vg name ++ (text "meta.json" ∷ [])
  meta_key-eq = below_vol vg name (text "meta.json") ∙ ap (λ q. vol_key vg name ++ q) meta_component

  pub mount_key-eq : components (mount_point vg name) ≡ vol_key vg name ++ (text "mountpoint" ∷ [])
  mount_key-eq =
      below_vol vg name (text "mountpoint") ∙ ap (λ q. vol_key vg name ++ q) mount_component

  pub mount_key-head :
      components (mount_point vg name)
      ≡ text "opt"
        ∷ (text "csi-hostpath" ∷ ((components vg ++ components name) ++ (text "mountpoint" ∷ [])))
  mount_key-head = mount_key-eq ∙ ap (λ q. q ++ (text "mountpoint" ∷ [])) vol_key-head

  -- The paths of a volume for a plain name
  pub mount_key-plain :
      components name ≡ name ∷ []
      → components (mount_point vg name) ≡ group_key vg ++ (name ∷ (text "mountpoint" ∷ []))
  mount_key-plain plain =
      mount_key-eq
      ∙ ap (λ q. q ++ (text "mountpoint" ∷ []))
          (vol_key-eq vg name ∙ ap (λ q. group_key vg ++ q) plain)
      ∙ append_assoc (group_key vg) (name ∷ []) (text "mountpoint" ∷ [])

  pub parent-meta_key : parent (meta_key vg name) ≡ vol_key vg name
  parent-meta_key =
      ap parent (meta_key-eq ∙ ap (λ q. q ++ (text "meta.json" ∷ [])) vol_key-head)
      ∙ parent-append (text "opt") (text "csi-hostpath" ∷ (components vg ++ components name))
          (text "meta.json")
      ∙ sym vol_key-head

  -- The metadata file is not on the way to the directory or the mount point.
  pub meta_key-outside_vol : has_prefix (meta_key vg name) (vol_key vg name) ≡ false
  unfolding has_prefix
  meta_key-outside_vol =
      ap (λ q. has_prefix q (vol_key vg name)) meta_key-eq
      ∙ ap (λ q. has_prefix (vol_key vg name ++ (text "meta.json" ∷ [])) q)
          (sym (append-nil (vol_key vg name)))
      ∙ has_prefix_cancel (vol_key vg name) (text "meta.json" ∷ []) []

  pub meta_key-outside_mount :
      has_prefix (meta_key vg name) (components (mount_point vg name)) ≡ false
  unfolding has_prefix text list_beq
  meta_key-outside_mount =
      ap (λ q. has_prefix q (components (mount_point vg name))) meta_key-eq
      ∙ ap (has_prefix (vol_key vg name ++ (text "meta.json" ∷ []))) mount_key-eq
      ∙ has_prefix_cancel (vol_key vg name) (text "meta.json" ∷ []) (text "mountpoint" ∷ [])

  -- The mount point is not on the way to the directory or the metadata file.
  pub mount_point-outside_vol :
      has_prefix (components (mount_point vg name)) (vol_key vg name) ≡ false
  unfolding has_prefix
  mount_point-outside_vol =
      ap (λ q. has_prefix q (vol_key vg name)) mount_key-eq
      ∙ ap (λ q. has_prefix (vol_key vg name ++ (text "mountpoint" ∷ [])) q)
          (sym (append-nil (vol_key vg name)))
      ∙ has_prefix_cancel (vol_key vg name) (text "mountpoint" ∷ []) []

  pub mount_point-outside_meta :
      has_prefix (components (mount_point vg name)) (meta_key vg name) ≡ false
  unfolding has_prefix text list_beq
  mount_point-outside_meta =
      ap (λ q. has_prefix q (meta_key vg name)) mount_key-eq
      ∙ ap (has_prefix (vol_key vg name ++ (text "mountpoint" ∷ []))) meta_key-eq
      ∙ has_prefix_cancel (vol_key vg name) (text "mountpoint" ∷ []) (text "meta.json" ∷ [])

  -- Nor is it the directory, or that of the group.
  pub meta_key-differs_vol : (meta_key vg name == vol_key vg name) ≡ false
  meta_key-differs_vol = elim (Bool-cases (meta_key vg name == vol_key vg name)) [
    | inl same ↦ cc (
        sym meta_key-outside_vol
        ∙ ap (has_prefix (meta_key vg name)) (sym (eq-eq (meta_key vg name) (vol_key vg name) same))
        ∙ has_prefix_refl (meta_key vg name))
    | inr other ↦ other
  ]

  pub meta_key-differs_group : (meta_key vg name == group_key vg) ≡ false
  meta_key-differs_group = elim (Bool-cases (meta_key vg name == group_key vg)) [
    | inl same ↦ cc (
        sym meta_key-outside_vol
        ∙ ap (has_prefix (meta_key vg name)) (
            vol_key-eq vg name
            ∙ ap (λ q. q ++ components name) (sym (eq-eq (meta_key vg name) (group_key vg) same)))
        ∙ has_prefix-append (meta_key vg name) (components name))
    | inr other ↦ other
  ]
