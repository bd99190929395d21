-- ===== src/HostPath/Lifecycle.antt =====
-- The life of one volume: what the commands return where no system call fails, and what is read of
-- the volume afterwards.
use csi_hostpath.Base.{
  ℕ, ◌≡◌, ◌==◌, ap, ◌∙◌, ◌≢◌, ◌<◌, false, none, some, [], ◌++◌, Text, length, drop, ok, err,
  append-nil, drop_all, has_prefix, has_prefix_refl, nat_eq, list_eq, arith, subst, true,
}
use csi_hostpath.Base.Dict.{lookup}
use csi_hostpath.FileSystem.{
  FilePath, components, dir, file, Files, quiet, overlay, erase_below, IsName, mkdir_all,
}
use csi_hostpath.FileSystem.Laws.{lookup-erase_below, Kept, Kept-aside, Kept-dir}
use csi_hostpath.FileSystem.Quiet.{
  IsClear, IsClear-Grows, mkdir_all-quiet, bytes, remove-quiet, remove_all-quiet,
}
use csi_hostpath.Volume.{Vol}
use csi_hostpath.Volume.Codec.{Codec, IsLawful}
use csi_hostpath.HostPath.{
  vol_path, meta_path, mount_point, get_vol_meta, new_vol, create_vol, expand_vol, remove_vol,
  clone_vol, create_snapshot, copy_vol, copy_tree,
}
use csi_hostpath.HostPath.Keys.{
  mount_point-outside_vol, mount_point-outside_meta, vol_key, group_key, meta_key, vol_key-head,
  mount_key-head, meta_path-inside, meta_key-outside_vol, meta_key-outside_mount,
  meta_key-differs_vol,
}
use csi_hostpath.HostPath.Calm.{copy_tree-quiet}
use csi_hostpath.HostPath.Frame.{Preserves-copy_tree}
use csi_hostpath.HostPath.Quiet.{
  IsDir-found, get_vol_meta-quiet, get_vol_meta-quiet_missing, write_meta-quiet, create_vol-quiet,
}

overlay-nil : (b : Text) → overlay b [] ≡ b
unfolding overlay
overlay-nil b = rw (drop_all {A = ℕ} (length b) [] (omega arith)) (append-nil b)

-- No file stands in the way of the volume's directories, and no directory in that of its metadata.
pub record IsFree (vg name : Text) (d : Files) : Type 0 where
  pub clear : IsClear [] (vol_key vg name) d
  pub clear_mount : IsClear [] (components (mount_point vg name)) d
  pub plain : lookup (meta_key vg name) d ≢ some dir

module _ (J : Codec) (L : IsLawful J) (vg name : Text) (d : Files) where
  -- The tree after a volume has been made
  pub create_vol-held :
      (size : ℕ)
      → IsFree vg name d
      → lookup (meta_key vg name) d ≡ none
      → (d' : Files) × (create_vol J vg name size (quiet d) ≡ (ok name, quiet d'))
        × (lookup (meta_key vg name) d' ≡ some (file (J.marshal (new_vol J vg name size))))
        × (lookup (vol_key vg name) d' ≡ some dir)
        × (lookup (group_key vg) d' ≡ some dir)
  unfolding bytes
  create_vol-held size free missing =
      let v = new_vol J vg name size in
      let (d', run, held, home, group) =
        create_vol-quiet J vg name size d free.clear free.clear_mount free.plain in
      let at : lookup (meta_key vg name) d' ≡ some (file (J.marshal v)) =
        held
        ∙ ap (λ o. some (file (overlay (J.marshal v) (bytes o)))) missing
        ∙ ap (λ b. some (file b)) (overlay-nil (J.marshal v)) in
      (d', run, at, home, group)

  -- Where no system call fails and nothing stands in the way, making a volume over one with longer
  -- metadata returns its name all the same, but the volume can no longer be read.
  pub create_vol_stale :
      (size : ℕ) (old : Vol)
      → IsFree vg name d
      → lookup (meta_key vg name) d ≡ some (file (J.marshal old))
      → length (J.marshal (new_vol J vg name size)) < length (J.marshal old)
      → (d' : Files) × (e : Text) × (create_vol J vg name size (quiet d) ≡ (ok name, quiet d'))
        × (get_vol_meta J vg name (quiet d') ≡ (err e, quiet d'))
  unfolding bytes overlay
  create_vol_stale size old free stale longer =
      let v = new_vol J vg name size in
      let (d', run, held, _, _) =
        create_vol-quiet J vg name size d free.clear free.clear_mount free.plain in
      let (e, refused) = L.trailing v old (length (J.marshal v)) longer in
      let at : lookup (meta_key vg name) d'
          ≡ some (file (J.marshal v ++ drop (length (J.marshal v)) (J.marshal old))) =
        held ∙ ap (λ o. some (file (overlay (J.marshal v) (bytes o)))) stale in
      (d', _, run, get_vol_meta-quiet J vg name d' _ at refused)

  -- The tree after the size of a volume has been changed
  pub expand_vol-held :
      (size : ℕ) (b : Text) (v : Vol)
      → lookup (vol_key vg name) d ≡ some dir
      → lookup (meta_key vg name) d ≡ some (file b)
      → J.unmarshal b ≡ ok v
      → (d' : Files) × (expand_vol J vg name size (quiet d) ≡ (ok name, quiet d'))
        × (lookup (meta_key vg name) d' ≡ some (file (J.marshal (record v { size = size }))))
        × (lookup (vol_key vg name) d' ≡ some dir)
  unfolding expand_vol bytes
  expand_vol-held size b v home held decodes =
      let k = meta_key vg name in
      let v' = record v { size = size } in
      let d1 = erase_below k d in
      let gone : lookup k d1 ≡ none = lookup-erase_below k k d ∙ rw (has_prefix_refl k) in
      let home1 : lookup (vol_key vg name) d1 ≡ some dir =
        lookup-erase_below k (vol_key vg name) d ∙ rw (meta_key-outside_vol vg name) home in
      let (d2, wrote, at, others) = write_meta-quiet J vg name d1 v' (λ e. cc) (λ _. home1) in
      let at2 : lookup k d2 ≡ some (file (J.marshal v')) =
        at
        ∙ ap (λ o. some (file (overlay (J.marshal v') (bytes o)))) gone
        ∙ ap (λ x. some (file x)) (overlay-nil (J.marshal v')) in
      (
        d2,
        rw (
          get_vol_meta-quiet J vg name d b held decodes,
          remove-quiet (meta_path vg name) d b held,
          wrote,
        ),
        at2,
        others (vol_key vg name) (meta_key-differs_vol vg name) ∙ home1,
      )

  -- Where no system call fails, a volume whose metadata can be read, and can be encoded with the size
  -- that is asked for, gets that size, whatever the length of its metadata, and keeps the rest of it.
  pub get-expand_vol :
      (size : ℕ) (b : Text) (v : Vol)
      → lookup (vol_key vg name) d ≡ some dir
      → lookup (meta_key vg name) d ≡ some (file b)
      → J.unmarshal b ≡ ok v
      → J.IsEncodable (record v { size = size })
      → (d' : Files) × (expand_vol J vg name size (quiet d) ≡ (ok name, quiet d'))
        × (get_vol_meta J vg name (quiet d') ≡ (ok (record v { size = size }), quiet d'))
  get-expand_vol size b v home held decodes enc =
      let v' = record v { size = size } in
      let (d', run, at, _) = expand_vol-held size b v home held decodes in
      (d', run, get_vol_meta-quiet J vg name d' (J.marshal v') at (L.round_trip v' enc))

  -- Where no system call fails, removing a volume leaves nothing at any path in its directory, and it can no longer be read.
  get-remove_vol :
      (q : FilePath)
      → has_prefix (vol_key vg name) q ≡ true
      → (d' : Files) × (e : Text) × (remove_vol vg name (quiet d) ≡ (ok name, quiet d'))
        × (lookup q d' ≡ none)
        × (get_vol_meta J vg name (quiet d') ≡ (err e, quiet d'))
  unfolding remove_vol
  get-remove_vol q inside =
      let d1 = erase_below (vol_key vg name) d in
      let gone : (q : FilePath) → has_prefix (vol_key vg name) q ≡ true → lookup q d1 ≡ none =
        λ q h. lookup-erase_below (vol_key vg name) q d ∙ rw h in
      let (e, refused) =
        get_vol_meta-quiet_missing J vg name d1
          (gone (meta_key vg name) (meta_path-inside vg name)) in
      (d1, e, rw (remove_all-quiet (vol_path vg name) d), gone q inside, refused)

-- The trees between the steps of a copy from `d` to `d'`
pub record CopySteps (vg src dest : Text) (d d' : Files) : Type 0 where
  pub first : Files
  pub second : Files
  pub third : Files
  pub made : mkdir_all (vol_path vg dest) (quiet d) ≡ (ok tt, quiet first)
  pub made_mount : mkdir_all (mount_point vg dest) (quiet first) ≡ (ok tt, quiet second)
  pub copied :
      copy_tree (mount_point vg src) (mount_point vg dest) (quiet second) ≡ (ok tt, quiet third)
  pub clear_mount : IsClear [] (components (mount_point vg dest)) first
  pub mount : lookup (components (mount_point vg dest)) second ≡ some dir
  pub rest : (q : FilePath) → (meta_key vg dest == q) ≡ false → lookup q d' ≡ lookup q third

module _ (J : Codec) (L : IsLawful J) (vg src dest : Text) (d : Files) where
  -- The tree after a copy of a volume: its metadata is that of the source under the new name.
  pub copy_vol-held :
      (b : Text) (v : Vol)
      → IsName vg
      → IsName src
      → IsFree vg dest d
      → lookup (meta_key vg dest) d ≡ none
      → lookup (meta_key vg src) d ≡ some (file b)
      → J.unmarshal b ≡ ok v
      → (d' : Files) × (copy_vol J vg src dest (quiet d)
          ≡ (ok (record v { name = dest }), quiet d'))
        × (lookup (meta_key vg dest) d' ≡ some (file (J.marshal (record v { name = dest }))))
        × (lookup (vol_key vg dest) d' ≡ some dir)
        × CopySteps vg src dest d d'
  unfolding copy_vol bytes
  copy_vol-held b v one single free missing held decodes =
      let k = meta_key vg dest in
      let m = components (mount_point vg dest) in
      let v' = record v { name = dest } in
      let (d1, e1, made1, g1) = mkdir_all-quiet (vol_path vg dest) d free.clear in
      let (d2, e2, made2, g2) =
        mkdir_all-quiet (mount_point vg dest) d1
          (IsClear-Grows (vol_key vg dest) d d1 g1 [] m free.clear_mount) in
      let (d3, e3) = copy_tree-quiet (mount_point vg src) (mount_point vg dest) d2 in
      let copied = λ (q : FilePath) (o : has_prefix m q ≡ false).
        subst (λ w. Kept m q (lookup q d2) (lookup q w.files)) (ap (λ r. r.1) e3)
          ((Preserves-copy_tree vg src dest one single).at (quiet d2) q o) in
      let home2 =
        Kept-dir m (vol_key vg dest) _ _ (g2 (vol_key vg dest))
          (IsDir-found _ _ (vol_key vg dest) d1 (vol_key-head vg dest) made1) in
      let home3 : lookup (vol_key vg dest) d3 ≡ some dir =
        Kept-dir m (vol_key vg dest) _ _
          (copied (vol_key vg dest) (mount_point-outside_vol vg dest)) home2 in
      let still : lookup k d3 ≡ none =
        Kept-aside m k _ _ (meta_key-outside_mount vg dest)
          (copied k (mount_point-outside_meta vg dest))
        ∙ Kept-aside m k _ _ (meta_key-outside_mount vg dest) (g2 k)
        ∙ Kept-aside (vol_key vg dest) k _ _ (meta_key-outside_vol vg dest) (g1 k)
        ∙ missing in
      let (d4, e4, at, others) = write_meta-quiet J vg dest d3 v' (λ e. cc) (λ _. home3) in
      let at4 : lookup k d4 ≡ some (file (J.marshal v')) =
        at
        ∙ ap (λ o. some (file (overlay (J.marshal v') (bytes o)))) still
        ∙ ap (λ x. some (file x)) (overlay-nil (J.marshal v')) in
      (
        d4,
        rw (get_vol_meta-quiet J vg src d b held decodes, e1, e2, e3, e4),
        at4,
        others (vol_key vg dest) (meta_key-differs_vol vg dest) ∙ home3,
        record {
          first = d1;
          second = d2;
          third = d3;
          made = e1;
          made_mount = e2;
          copied = e3;
          clear_mount = IsClear-Grows (vol_key vg dest) d d1 g1 [] m free.clear_mount;
          mount = IsDir-found _ _ m d2 (mount_key-head vg dest) made2;
          rest = others;
        },
      )

  -- Where no system call fails, the metadata of the source can be read, it can be encoded under the
  -- new name, nothing has that name, and the group and the source have plain names, a clone returns the new name and a snapshot the
  -- size of the source, and the new volume has the metadata of the source but for its name.
  pub get-copies :
      (b : Text) (v : Vol)
      → IsName vg
      → IsName src
      → IsFree vg dest d
      → lookup (meta_key vg dest) d ≡ none
      → lookup (meta_key vg src) d ≡ some (file b)
      → J.unmarshal b ≡ ok v
      → J.IsEncodable (record v { name = dest })
      → (d' : Files) × (clone_vol J vg src dest (quiet d) ≡ (ok dest, quiet d'))
        × (create_snapshot J vg dest src (quiet d) ≡ (ok v.size, quiet d'))
        × (get_vol_meta J vg dest (quiet d') ≡ (ok (record v { name = dest }), quiet d'))
  unfolding clone_vol create_snapshot
  get-copies b v one single free missing held decodes enc =
      let v' = record v { name = dest } in
      let (d', run, at, _, _) = copy_vol-held b v one single free missing held decodes in
      (d', rw run, rw run, get_vol_meta-quiet J vg dest d' (J.marshal v') at (L.round_trip v' enc))
