-- ===== src/HostPath/Clones.antt =====
-- A clone and a snapshot have the data of their source.
use csi_hostpath.Base.{
  ◌≡◌, ◌≢◌, refl, sym, ap, ◌∙◌, subst, false, none, some, [], ◌∷◌, ◌++◌, Text, text, ok, ◌==◌,
  nat_eq, list_eq, eq-eq, eq_refl, Bool-cases, inl, inr, has_prefix, has_prefix_cancel,
  append_assoc, append-nil,
}
use csi_hostpath.Base.Dict.{lookup}
use csi_hostpath.FileSystem.{
  FilePath, components, file, Files, quiet, IsName, system_call, mkdir_all,
}
use csi_hostpath.FileSystem.Leads.{Dirs, mkdir_from-Dirs}
use csi_hostpath.Volume.{Vol}
use csi_hostpath.Volume.Codec.{Codec, IsLawful}
use csi_hostpath.HostPath.{
  mount_point, vol_path, extends, below, walk_entries, visit_all, copy_tree, clone_vol,
  create_snapshot,
}
use csi_hostpath.HostPath.Keys.{
  group_key, vol_key, vol_key-eq, meta_key, mount_key-plain, mount_key-eq, mount_key-head,
  mount_point-outside_meta,
}
use csi_hostpath.HostPath.Lifecycle.{IsFree, CopySteps, copy_vol-held}
use csi_hostpath.HostPath.Below.{extends_self, extends_cancel, mkdir_all-below}
use csi_hostpath.HostPath.Walk.{
  IsWalk, replay, lookup-replay, HeldIn-replay, extends-append, lookup-below,
}
use csi_hostpath.HostPath.Data.{Mirrors, visit_all-Mirrors, apart_back}

-- The mount point of a volume
abbrev pub mount_key : Text → Text → FilePath
mount_key vg name = components (mount_point vg name)

module _ (vg src dest : Text) (single : IsName src) (plain : IsName dest)
    (differ : (src == dest) ≡ false) (back : (dest == src) ≡ false) where
  elsewhere_vol : extends (mount_key vg src) (vol_key vg dest) ≡ false
  elsewhere_vol =
      ap (λ p. extends p (vol_key vg dest)) (mount_key-plain vg src single.0)
      ∙ ap (extends (group_key vg ++ (src ∷ (text "mountpoint" ∷ []))))
          (vol_key-eq vg dest ∙ ap (λ q. group_key vg ++ q) plain.0)
      ∙ extends_cancel (group_key vg) (src ∷ (text "mountpoint" ∷ [])) (dest ∷ [])
      ∙ rw differ refl

  elsewhere_mount : extends (mount_key vg src) (mount_key vg dest) ≡ false
  elsewhere_mount =
      ap (λ p. extends p (mount_key vg dest)) (mount_key-plain vg src single.0)
      ∙ ap (extends (group_key vg ++ (src ∷ (text "mountpoint" ∷ []))))
          (mount_key-plain vg dest plain.0)
      ∙ extends_cancel (group_key vg) (src ∷ (text "mountpoint" ∷ []))
          (dest ∷ (text "mountpoint" ∷ []))
      ∙ rw differ refl

  apart_mount : (q : FilePath) → has_prefix (mount_key vg dest) (mount_key vg src ++ q) ≡ false
  unfolding has_prefix
  apart_mount q =
      ap (λ p. has_prefix p (mount_key vg src ++ q)) (mount_key-plain vg dest plain.0)
      ∙ ap (λ p. has_prefix (group_key vg ++ (dest ∷ (text "mountpoint" ∷ []))) (p ++ q))
          (mount_key-plain vg src single.0)
      ∙ ap (has_prefix (group_key vg ++ (dest ∷ (text "mountpoint" ∷ []))))
          (append_assoc (group_key vg) (src ∷ (text "mountpoint" ∷ [])) q)
      ∙ has_prefix_cancel (group_key vg) (dest ∷ (text "mountpoint" ∷ []))
          (src ∷ (text "mountpoint" ∷ q))
      ∙ rw back refl

-- The tree below the mount point of `src` can be copied to that of `dest`: the walk comes to each
-- entry after the directories that it is in, no entry repeats the text of the mount point, and
-- nothing is below the mount point of `dest` yet.
pub record IsCopyable (vg src dest : Text) (d : Files) : Type 0 where
  pub walk : IsWalk vg src [] (below (mount_key vg src) d)
  pub empty : below (mount_key vg dest) d ≡ []

module _ (vg src dest : Text) (d d' : Files) (one : IsName vg) (single : IsName src)
    (plain : IsName dest) (differ : (src == dest) ≡ false) (back : (dest == src) ≡ false)
    (free : IsFree vg dest d) (can : IsCopyable vg src dest d)
    (steps : CopySteps vg src dest d d') where
  same_below :
      (p : FilePath)
      → extends p (vol_key vg dest) ≡ false
      → extends p (mount_key vg dest) ≡ false
      → below p steps.second ≡ below p d
  same_below p h k =
      mkdir_all-below p (mount_point vg dest) steps.first steps.second steps.clear_mount k
        steps.made_mount
      ∙ mkdir_all-below p (vol_path vg dest) d steps.first free.clear h steps.made

  same_source : below (mount_key vg src) steps.second ≡ below (mount_key vg src) d
  same_source =
      same_below (mount_key vg src) (elsewhere_vol vg src dest single plain differ back)
        (elsewhere_mount vg src dest single plain differ back)

  home : Dirs [] (mount_key vg dest) steps.second
  unfolding mkdir_all
  home =
      let (d2, run, dirs) =
        mkdir_from-Dirs (mount_point vg dest) [] (mount_key vg dest) steps.first
          steps.clear_mount in
      subst (λ x. Dirs [] (mount_key vg dest) x) (ap (λ r. r.1.files) (sym run ∙ steps.made_mount))
        dirs

  abbrev entries : Files
  entries = below (mount_key vg src) d

  abbrev tail : FilePath
  tail = text "csi-hostpath" ∷ ((components vg ++ components dest) ++ (text "mountpoint" ∷ []))

  held :
      (c : Text) (r : FilePath)
      → lookup (mount_key vg src ++ (c ∷ r)) steps.second
        ≡ lookup (mount_key vg src ++ (c ∷ r)) (replay [] entries)
  held c r =
      let k = mount_key vg src ++ (c ∷ r) in
      sym (
        lookup-below (mount_key vg src) k steps.second
          (extends-append (mount_key vg src) (c ∷ r) (λ e. cc)))
      ∙ ap (lookup k) same_source
      ∙ sym (lookup-replay vg src entries k can.walk)

  apart : (q : FilePath) → has_prefix (text "opt" ∷ tail) (mount_key vg src ++ q) ≡ false
  apart q =
      ap (λ p. has_prefix p (mount_key vg src ++ q)) (sym (mount_key-head vg dest))
      ∙ apart_mount vg src dest single plain differ back q

  -- The copy has visited the entries of the source.
  walked :
      (d3 : Files) × (visit_all
          (mount_point vg src)
          (mount_point vg dest)
          entries
          (quiet steps.second)
        ≡ (ok tt, quiet d3))
      × Mirrors (mount_key vg src) (text "opt" ∷ tail) (replay [] entries) d3
  unfolding lookup
  walked =
      let m = mount_key-head vg dest in
      let blank : below (text "opt" ∷ tail) steps.second ≡ [] =
        ap (λ p. below p steps.second) (sym m)
        ∙ same_below (mount_key vg dest) vol_aside (extends_self (mount_key vg dest))
        ∙ can.empty in
      visit_all-Mirrors vg src dest one single (text "opt") tail m apart entries []
        (replay [] entries) steps.second
        (record {
          walk = can.walk;
          home = subst (λ p. Dirs [] p steps.second) m home;
          here = ap (λ p. lookup p steps.second) (sym m) ∙ steps.mount;
          mirror = λ q h.
              sym (
                lookup-below (text "opt" ∷ tail) ((text "opt" ∷ tail) ++ q) steps.second
                  (extends-append (text "opt" ∷ tail) q h))
              ∙ ap (lookup ((text "opt" ∷ tail) ++ q)) blank;
          kept = held;
        })
        (HeldIn-replay vg src entries [] can.walk)
    where
      vol_aside : extends (mount_key vg dest) (vol_key vg dest) ≡ false
      vol_aside =
          ap (λ p. extends p (vol_key vg dest)) (mount_key-eq vg dest)
          ∙ ap (extends (vol_key vg dest ++ (text "mountpoint" ∷ [])))
              (sym (append-nil (vol_key vg dest)))
          ∙ extends_cancel (vol_key vg dest) (text "mountpoint" ∷ []) []

  -- Below the mount point of the copy stands what stands below that of the source.
  pub copied-data :
      (q : FilePath)
      → q ≢ []
      → lookup (mount_key vg dest ++ q) d' ≡ lookup (mount_key vg src ++ q) d
  unfolding copy_tree walk_entries system_call
  copied-data q some_way =
      let (d3, run, mirror) = walked in
      let found : visit_all (mount_point vg src) (mount_point vg dest)
            (below (mount_key vg src) steps.second) (quiet steps.second)
          ≡ (ok tt, quiet d3) =
        ap (λ es. visit_all (mount_point vg src) (mount_point vg dest) es (quiet steps.second))
          same_source
        ∙ run in
      let tree : copy_tree (mount_point vg src) (mount_point vg dest) (quiet steps.second)
          ≡ (ok tt, quiet d3) =
        rw found refl in
      let third : steps.third ≡ d3 = ap (λ r. r.1.files) (sym steps.copied ∙ tree) in
      let k = mount_key vg src ++ q in
      steps.rest (mount_key vg dest ++ q)
        (apart_back (mount_key vg dest) q (meta_key vg dest) (mount_point-outside_meta vg dest))
      ∙ ap (lookup (mount_key vg dest ++ q)) third
      ∙ ap (λ p. lookup (p ++ q) d3) (mount_key-head vg dest)
      ∙ mirror q some_way
      ∙ lookup-replay vg src entries k can.walk
      ∙ lookup-below (mount_key vg src) k d (extends-append (mount_key vg src) q some_way)

differ_back : (x y : Text) → (x == y) ≡ false → (y == x) ≡ false
differ_back x y other = elim (Bool-cases (y == x)) [
  | inl same ↦ cc (sym other ∙ ap (λ z. x == z) (eq-eq y x same) ∙ eq_refl x)
  | inr apart ↦ apart
]

module _ (J : Codec) (L : IsLawful J) (vg src dest : Text) (d : Files) where
  -- Where no system call fails, the source's metadata can be read, the names are plain and differ,
  -- nothing has the new name or stands in its way, and the tree below the source's mount point can
  -- be copied, CloneVol returns the new name and CreateSnapshot the size of the source, and below
  -- the new mount point every path holds what the same path holds below that of the source, or
  -- nothing where that holds nothing.
  pub copies-data :
      (b : Text) (v : Vol)
      → IsName vg
      → IsName src
      → IsName dest
      → (src == dest) ≡ false
      → IsFree vg dest d
      → lookup (meta_key vg dest) d ≡ none
      → lookup (meta_key vg src) d ≡ some (file b)
      → J.unmarshal b ≡ ok v
      → IsCopyable vg src dest d
      → (d' : Files) × (clone_vol J vg src dest (quiet d) ≡ (ok dest, quiet d'))
        × (create_snapshot J vg dest src (quiet d) ≡ (ok v.size, quiet d'))
        × ((q : FilePath)
            → q ≢ []
            → lookup (mount_key vg dest ++ q) d' ≡ lookup (mount_key vg src ++ q) d)
  unfolding clone_vol create_snapshot
  copies-data b v one single plain differ free missing held decodes can =
      let (d', run, _, _, steps) =
        copy_vol-held J L vg src dest d b v one single free missing held decodes in
      (
        d',
        rw run refl,
        rw run refl,
        copied-data vg src dest d d' one single plain differ (differ_back src dest differ) free can
            steps,
      )
