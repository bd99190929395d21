-- ===== src/HostPath/Calm.antt =====
-- Copying the data of a volume ends, in a world where no system call fails: its errors are dropped.
use csi_hostpath.Base.{◌≡◌, [], ◌∷◌, Text, ok, nat_eq, refl}
use csi_hostpath.FileSystem.{FilePath, Node, dir, file, Files, quiet}
use csi_hostpath.FileSystem.Calm.{
  IsCalm, IsCalm-pure, IsCalm-if, IsCalm-system_call, IsCalm-bind, IsCalm-ignore, IsCalm-os_open,
  IsCalm-read_all, IsCalm-exists, IsCalm-mkdir_all, IsCalm-open_file, IsCalm-write_string, ignored,
}
use csi_hostpath.HostPath.{copy_file, make_dir, visit, visit_all, walk_entries, copy_tree}

IsCalm-copy_file : (src des : Text) → IsCalm (copy_file src des)
unfolding copy_file
IsCalm-copy_file src des = IsCalm-bind _ _ (IsCalm-os_open src) (λ _.
    IsCalm-bind _ _ (IsCalm-open_file des _)
      (λ _. IsCalm-bind _ _ (IsCalm-read_all src) (λ b. IsCalm-write_string des b)))

IsCalm-make_dir : (d : Text) → IsCalm (make_dir d)
unfolding make_dir
IsCalm-make_dir d =
    IsCalm-bind _ _ (IsCalm-exists d) (λ e. IsCalm-if e _ _ (IsCalm-pure tt) (IsCalm-mkdir_all d))

IsCalm-visit : (src dest : Text) (k : FilePath) (n : Node) → IsCalm (visit src dest (k, n))
unfolding visit
IsCalm-visit src dest k dir =
    IsCalm-bind _ _ (IsCalm-exists _) (λ e. IsCalm-if e _ _ (IsCalm-pure tt) (IsCalm-make_dir _))
IsCalm-visit src dest k (file b) = IsCalm-ignore _ (IsCalm-copy_file _ _)

IsCalm-visit_all : (src dest : Text) (es : Files) → IsCalm (visit_all src dest es)
unfolding visit_all
IsCalm-visit_all src dest [] = IsCalm-pure tt
IsCalm-visit_all src dest ((k, n) ∷ es) =
    IsCalm-bind _ _ (IsCalm-visit src dest k n) (λ _. IsCalm-visit_all src dest es)

IsCalm-walk_entries : (t : Text) → IsCalm (walk_entries t)
unfolding walk_entries
IsCalm-walk_entries t = IsCalm-system_call _ _ (record { at = λ d. (ok _, d, refl, λ p. cc) })

pub copy_tree-quiet :
    (src dest : Text) (d : Files)
    → (d' : Files) × (copy_tree src dest (quiet d) ≡ (ok tt, quiet d'))
unfolding copy_tree
copy_tree-quiet src dest d =
    let (d', e, _) =
      ignored _ (IsCalm-bind _ _ (IsCalm-walk_entries src) (λ es. IsCalm-visit_all src dest es))
        d in
    (d', e)
