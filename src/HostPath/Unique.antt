-- ===== src/HostPath/Unique.antt =====
-- The commands leave at most one node at a path.
use csi_hostpath.Base.{[], ◌∷◌, Outcome, ok, err, panic, ℕ, Text, nat_eq}
use csi_hostpath.FileSystem.{FilePath, Node, dir, file, Files, Os}
use csi_hostpath.FileSystem.Unique.{
  KeepsUnique-if, KeepsUnique-exists, KeepsUnique-system_call, KeepsUnique-bind,
  KeepsUnique-attempt, KeepsUnique-os_open, KeepsUnique-read_all, KeepsUnique-os_remove,
  KeepsUnique, KeepsUnique-pure, KeepsUnique-then, KeepsUnique-map_err, KeepsUnique-mkdir_all,
  KeepsUnique-open_file, KeepsUnique-write_string,
}
use csi_hostpath.Volume.{Vol}
use csi_hostpath.Volume.Codec.{Codec}
use csi_hostpath.HostPath.{
  copy_file, make_dir, visit, visit_all, copy_tree, walk_entries, copy_vol, ignore, expand_vol,
  get_vol_meta, decoded, create_vol, write_meta,
}

copy_file-KeepsUnique : (src des : Text) → KeepsUnique (copy_file src des)
unfolding copy_file
copy_file-KeepsUnique src des = KeepsUnique-then _ _ (KeepsUnique-os_open src) (
    KeepsUnique-then _ _ (KeepsUnique-open_file des _)
      (KeepsUnique-bind _ _ (KeepsUnique-read_all src) (λ b. KeepsUnique-write_string des b)))

make_dir-KeepsUnique : (d : Text) → KeepsUnique (make_dir d)
unfolding make_dir
make_dir-KeepsUnique d =
    KeepsUnique-bind _ _ (KeepsUnique-exists d)
      (λ e. KeepsUnique-if e _ _ (KeepsUnique-pure tt) (KeepsUnique-mkdir_all d))

ignore-KeepsUnique : {A : Type 0} (m : Os A) → KeepsUnique m → KeepsUnique (ignore m)
ignore-KeepsUnique m k = KeepsUnique-then _ _ (KeepsUnique-attempt m k) (KeepsUnique-pure tt)

visit-KeepsUnique :
    (src dest : Text) (k : FilePath) (n : Node) → KeepsUnique (visit src dest (k, n))
unfolding visit
visit-KeepsUnique src dest k dir =
    KeepsUnique-bind _ _ (KeepsUnique-exists _)
      (λ e. KeepsUnique-if e _ _ (KeepsUnique-pure tt) (make_dir-KeepsUnique _))
visit-KeepsUnique src dest k (file b) = ignore-KeepsUnique _ (copy_file-KeepsUnique _ _)

visit_all-KeepsUnique : (src dest : Text) (es : Files) → KeepsUnique (visit_all src dest es)
unfolding visit_all
visit_all-KeepsUnique src dest [] = KeepsUnique-pure tt
visit_all-KeepsUnique src dest ((k, n) ∷ es) =
    KeepsUnique-then _ _ (visit-KeepsUnique src dest k n) (visit_all-KeepsUnique src dest es)

copy_tree-KeepsUnique : (src dest : Text) → KeepsUnique (copy_tree src dest)
unfolding copy_tree walk_entries
copy_tree-KeepsUnique src dest = ignore-KeepsUnique _ (
    KeepsUnique-bind _ _
      (KeepsUnique-system_call _ _ (λ f. KeepsUnique-pure []) (record { at = λ w u. u }))
      (λ es. visit_all-KeepsUnique src dest es))

module _ (J : Codec) where
  write_meta-KeepsUnique : (t : Text) (v : Vol) → KeepsUnique (write_meta J t v)
  unfolding write_meta
  write_meta-KeepsUnique t v =
      KeepsUnique-then _ _ (KeepsUnique-map_err _ _ (KeepsUnique-open_file t _))
        (KeepsUnique-map_err _ _ (KeepsUnique-write_string t (J.marshal v)))

  get_vol_meta-KeepsUnique : (vg name : Text) → KeepsUnique (get_vol_meta J vg name)
  unfolding get_vol_meta
  get_vol_meta-KeepsUnique vg name =
      KeepsUnique-then _ _ (KeepsUnique-os_open _)
        (KeepsUnique-bind _ _ (KeepsUnique-read_all _) (λ out. decodes out (J.unmarshal out)))
    where
      decodes : (out : Text) (r : Outcome Text Vol) → KeepsUnique (decoded J out r)
      decodes out (ok v) = KeepsUnique-pure v
      decodes out (err e) = record { at = λ w u. u }
      decodes out panic = record { at = λ w u. u }

  pub create_vol-KeepsUnique : (vg name : Text) (size : ℕ) → KeepsUnique (create_vol J vg name size)
  unfolding create_vol
  create_vol-KeepsUnique vg name size =
      KeepsUnique-then _ _ (KeepsUnique-map_err _ _ (KeepsUnique-mkdir_all _)) (
        KeepsUnique-then _ _ (KeepsUnique-map_err _ _ (KeepsUnique-mkdir_all _))
          (KeepsUnique-then _ _ (write_meta-KeepsUnique _ _) (KeepsUnique-pure name)))

  pub expand_vol-KeepsUnique : (vg name : Text) (size : ℕ) → KeepsUnique (expand_vol J vg name size)
  unfolding expand_vol get_vol_meta
  expand_vol-KeepsUnique vg name size =
      KeepsUnique-bind _ _ (KeepsUnique-map_err _ _ (get_vol_meta-KeepsUnique vg name)) (λ info.
        KeepsUnique-then _ _
          (KeepsUnique-then _ _ (KeepsUnique-attempt _ (KeepsUnique-os_remove _))
            (KeepsUnique-pure tt))
          (KeepsUnique-then _ _ (write_meta-KeepsUnique _ _) (KeepsUnique-pure name)))

  pub copy_vol-KeepsUnique : (vg src dest : Text) → KeepsUnique (copy_vol J vg src dest)
  unfolding copy_vol
  copy_vol-KeepsUnique vg src dest =
      KeepsUnique-bind _ _ (KeepsUnique-map_err _ _ (get_vol_meta-KeepsUnique vg src)) (λ info.
        KeepsUnique-then _ _ (KeepsUnique-map_err _ _ (KeepsUnique-mkdir_all _)) (
          KeepsUnique-then _ _ (KeepsUnique-map_err _ _ (KeepsUnique-mkdir_all _)) (
            KeepsUnique-then _ _ (copy_tree-KeepsUnique _ _)
              (KeepsUnique-then _ _ (write_meta-KeepsUnique _ _) (KeepsUnique-pure _)))))
