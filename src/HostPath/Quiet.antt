-- ===== src/HostPath/Quiet.antt =====
-- The commands in a world where no system call fails: what they return, and what becomes of the
-- metadata file.
use csi_hostpath.Base.{
  ℕ, ◌≡◌, ap, ◌∙◌, sym, subst, ◌≢◌, false, none, some, [], ◌∷◌, Text, Outcome, ok, err, nat_eq,
  list_eq, ◌==◌,
}
use csi_hostpath.Base.Dict.{lookup, insert, lookup-insert, lookup-insert_self}
use csi_hostpath.FileSystem.{FilePath, components, dir, file, Files, quiet, overlay}
use csi_hostpath.FileSystem.Laws.{Kept-aside, Kept-dir}
use csi_hostpath.FileSystem.Quiet.{
  IsClear, IsClear-Grows, IsDir, mkdir_all-quiet, bytes, open_file-quiet, write_string-quiet,
  read-quiet, open-quiet_missing,
}
use csi_hostpath.FileSystem.Way.{mkdir_all-way}
use csi_hostpath.Volume.{Vol}
use csi_hostpath.Volume.Codec.{Codec}
use csi_hostpath.HostPath.{
  vol_path, meta_path, mount_point, get_vol_meta, write_meta, new_vol, create_vol, decoded,
}
use csi_hostpath.HostPath.Keys.{
  vol_key, vol_key-eq, group_key, group_key-head, meta_key, meta_key-differs_vol,
  meta_key-differs_group, vol_key-head, parent-meta_key, meta_key-outside_vol,
  meta_key-outside_mount,
}

module _ (J : Codec) (vg name : Text) (d : Files) where
  -- What is read of a volume is what its metadata file decodes to.
  pub get_vol_meta-quiet :
      (b : Text) {r : Outcome Text Vol}
      → lookup (meta_key vg name) d ≡ some (file b)
      → J.unmarshal b ≡ r
      → get_vol_meta J vg name (quiet d) ≡ decoded J b r (quiet d)
  unfolding get_vol_meta
  get_vol_meta-quiet b found decodes =
      let (o, r) = read-quiet (meta_path vg name) d b found in rw (o, r, decodes)

  pub get_vol_meta-quiet_missing :
      lookup (meta_key vg name) d ≡ none
      → (e : Text) × (get_vol_meta J vg name (quiet d) ≡ (err e, quiet d))
  unfolding get_vol_meta
  get_vol_meta-quiet_missing missing =
      let (e, o) = open-quiet_missing (meta_path vg name) d missing in (e, rw o)

  pub write_meta-quiet :
      (v : Vol)
      → lookup (meta_key vg name) d ≢ some dir
      → (lookup (meta_key vg name) d ≡ none → lookup (vol_key vg name) d ≡ some dir)
      → (d' : Files) × (write_meta J (meta_path vg name) v (quiet d) ≡ (ok tt, quiet d'))
        × (lookup (meta_key vg name) d'
            ≡ some (file (overlay (J.marshal v) (bytes (lookup (meta_key vg name) d)))))
        × ((q : FilePath) → (meta_key vg name == q) ≡ false → lookup q d' ≡ lookup q d)
  unfolding write_meta
  write_meta-quiet v plain above =
      let (d1, o, held, others) =
        open_file-quiet (meta_path vg name) d plain
          (λ m. ap (λ p. lookup p d) (parent-meta_key vg name) ∙ above m) in
      let written = overlay (J.marshal v) (bytes (lookup (meta_key vg name) d)) in
      let w = write_string-quiet (meta_path vg name) d1 (J.marshal v) _ held in
      (
        insert (meta_key vg name) (file written) d1,
        rw (o, w),
        lookup-insert_self (meta_key vg name) (file written) d1,
        λ q differ.
            rw (lookup-insert (meta_key vg name) q (file written) d1, differ) (others q differ),
      )

pub IsDir-found :
    (c : Text) (p q : FilePath) (d : Files) → q ≡ c ∷ p → IsDir q d → lookup q d ≡ some dir
IsDir-found c p q d e h = ap (λ x. lookup x d) e ∙ subst (λ x. IsDir x d) e h

module _ (J : Codec) (vg name : Text) (size : ℕ) (d : Files) where
  -- Where no file stands on the way to the volume's directory and mount point, and no directory
  -- in the place of its metadata, a volume is made.
  pub create_vol-quiet :
      IsClear [] (vol_key vg name) d
      → IsClear [] (components (mount_point vg name)) d
      → lookup (meta_key vg name) d ≢ some dir
      → (d' : Files) × (create_vol J vg name size (quiet d) ≡ (ok name, quiet d'))
        × (lookup (meta_key vg name) d'
            ≡ some (
                file (
                  overlay
                    (J.marshal (new_vol J vg name size))
                    (bytes (lookup (meta_key vg name) d)))))
        × (lookup (vol_key vg name) d' ≡ some dir)
        × (lookup (group_key vg) d' ≡ some dir)
  unfolding create_vol
  create_vol-quiet clear clear_mount plain =
      let (d1, e1, made1, g1) = mkdir_all-quiet (vol_path vg name) d clear in
      let (d2, e2, made2, g2) = mkdir_all-quiet (mount_point vg name) d1 (
        IsClear-Grows (vol_key vg name) d d1 g1 [] (components (mount_point vg name))
          clear_mount) in
      let same : lookup (meta_key vg name) d2 ≡ lookup (meta_key vg name) d =
        Kept-aside _ (meta_key vg name) _ _ (meta_key-outside_mount vg name) (g2 (meta_key vg name))
        ∙ Kept-aside _ (meta_key vg name) _ _ (meta_key-outside_vol vg name)
            (g1 (meta_key vg name)) in
      let home =
        Kept-dir _ (vol_key vg name) _ _ (g2 (vol_key vg name))
          (IsDir-found _ _ (vol_key vg name) d1 (vol_key-head vg name) made1) in
      let (d3, e3, held, others) =
        write_meta-quiet J vg name d2 (new_vol J vg name size) (λ e. plain (sym same ∙ e))
          (λ _. home) in
      let (dw, ew, way) =
        mkdir_all-way (vol_path vg name) (group_key vg) (components name) d (vol_key-eq vg name)
          clear in
      let group1 : lookup (group_key vg) d1 ≡ some dir =
        IsDir-found _ _ (group_key vg) d1 (group_key-head vg)
          (subst (IsDir (group_key vg)) (ap (λ r. r.1.files) (sym ew ∙ e1)) way) in
      (
        d3,
        rw (e1, e2, e3),
        held ∙ ap (λ o. some (file (overlay (J.marshal (new_vol J vg name size)) (bytes o)))) same,
        others (vol_key vg name) (meta_key-differs_vol vg name) ∙ home,
        others (group_key vg) (meta_key-differs_group vg name)
            ∙ Kept-dir _ (group_key vg) _ _ (g2 (group_key vg)) group1,
      )
