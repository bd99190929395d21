-- ===== src/HostPath.antt =====
-- pkg/server/hostpath_commands.go: the commands of a node, over its file system. Every command
-- returns its result or the text of an error, beside the files that it leaves. Logging and the
-- closing of files are not modelled.
pub mod Keys
pub mod CopyPaths
pub mod Frame
pub mod Calm
pub mod Unique
pub mod Quiet
pub mod Walk
pub mod Data
pub mod Below
pub mod Lifecycle
pub mod Clones
use csi_hostpath.Base.{
  ℕ, String, Bool, true, false, List, [], ◌∷◌, ◌++◌, Text, text, Outcome, ok, err, panic, pure,
  fail, ◌>>=◌, ◌>>◌, map_err, attempt, ◌==◌, nat_eq, list_eq, ◌||◌, replace_all, if◌then◌else◌,
}
use csi_hostpath.FileSystem.{
  ◌//◌, FilePath, components, join_path, Node, dir, file, Files, Fault, Os, os_open, read_all,
  read_dir, mkdir_all, open_file, write_string, os_remove, remove_all, exists, system_call,
}
use csi_hostpath.Volume.{Vol}
use csi_hostpath.Volume.Codec.{Codec}

-- `fmt.Sprintf("/opt/csi-hostpath/%s", vg)`, and the paths below it
unfoldable pub root : Text
root = text "/opt/csi-hostpath"

abbrev pub group_path : Text → Text
group_path vg = root // vg

abbrev pub vol_path : Text → Text → Text
vol_path vg name = root // (vg // name)

abbrev pub meta_path : Text → Text → Text
meta_path vg name = root // (vg // (name // text "meta.json"))

abbrev pub mount_point : Text → Text → Text
mount_point vg name = root // (vg // (name // text "mountpoint"))

-- `fmt.Errorf("failed to … %s, err:%v", path, err)`
abbrev pub failed_to : String → Text → Text → Text
failed_to what path e = text what ++ (path ++ (text ", err:" ++ e))

-- A call whose result is dropped
abbrev pub ignore : {A : Type 0} → Os A → Os (Unit {0})
ignore m = attempt m >> pure tt

-- `GetVolPath`
unfoldable pub get_vol_path : Text → Text → Text
get_vol_path vg vol = if vg == [] || vol == [] then [] else mount_point vg vol

-- `CopyFile`
unfoldable pub copy_file : Text → Text → Os (Unit {0})
copy_file src des = do os_open src; open_file des true; bytes ← read_all src; write_string des bytes

-- `MakeDir`
unfoldable pub make_dir : Text → Os (Unit {0})
make_dir d = do existed ← exists d; if existed then pure tt else mkdir_all d

abbrev extends : FilePath → FilePath → Bool
extends [] [] = false
extends [] (x ∷ k) = true
extends (c ∷ p) [] = false
extends (c ∷ p) (x ∷ k) = let deeper = extends p k in if c == x then deeper else false

-- The entries that `filepath.Walk` finds below a directory, each after the directory it is in.
unfoldable pub below : FilePath → Files → Files
below p [] = []
below p ((k, n) ∷ d) = let rest = below p d in if extends p k then (k, n) ∷ rest else rest

abbrev pub no_entries : Fault → Os Files
no_entries f = pure []

abbrev pub entries_below : Text → Os Files
entries_below t w = pure (below (components t) w.files) w

-- What is read of the tree, in one call. A call that fails finds nothing.
unfoldable pub walk_entries : Text → Os Files
unfolding below
walk_entries t = system_call no_entries (entries_below t)

-- The function that `filepath.Walk` calls at each entry
unfoldable pub visit : Text → Text → FilePath × Node → Os (Unit {0})
visit src_mount dest_mount (k, file b) =
    ignore (copy_file (join_path k) (replace_all src_mount dest_mount (join_path k)))
visit src_mount dest_mount (k, dir) = do
  existed ← exists (replace_all src_mount dest_mount (join_path k))
  if existed then pure tt else make_dir (replace_all src_mount dest_mount (join_path k))

unfoldable pub visit_all : Text → Text → Files → Os (Unit {0})
unfolding visit
visit_all src_mount dest_mount [] = pure tt
visit_all src_mount dest_mount (e ∷ es) = do
  visit src_mount dest_mount e
  visit_all src_mount dest_mount es

-- `err = filepath.Walk(…)`: no code reads this `err` before it is assigned again.
unfoldable pub copy_tree : Text → Text → Os (Unit {0})
unfolding walk_entries visit_all
copy_tree src_mount dest_mount =
    ignore (do es ← walk_entries src_mount; visit_all src_mount dest_mount es)

-- `RemoveVol`, and `RemoveSnapshot`, which returns no name
unfoldable pub remove_vol : Text → Text → Os Text
remove_vol vg name = do ignore (remove_all (vol_path vg name)); pure name

unfoldable pub remove_snapshot : Text → Text → Os Text
remove_snapshot vg name = do ignore (remove_all (vol_path vg name)); pure []

module _ (J : Codec) where
  abbrev decoded : Text → Outcome Text Vol → Os Vol
  decoded out (ok v) = pure v
  decoded out (err e) = fail (text "failed to unmarshal out:" ++ (out ++ (text " err:" ++ e)))
  decoded out panic = λ w. (panic, w)

  -- `getVolMeta`
  unfoldable pub get_vol_meta : Text → Text → Os Vol
  get_vol_meta vg vol = do
    os_open (meta_path vg vol)
    out ← read_all (meta_path vg vol)
    decoded out (J.unmarshal out)

  -- The last step of the commands that make a volume. The file is not truncated.
  unfoldable pub write_meta : Text → Vol → Os (Unit {0})
  write_meta meta_file vol = do
    map_err (failed_to "failed to create metadata " meta_file) (open_file meta_file false)
    map_err (failed_to "failed to write metadata to " meta_file)
        (write_string meta_file (J.marshal vol))

  unfoldable pub list_entries : Text → List (Text × Node) → Os (List Vol)
  unfolding get_vol_meta
  list_entries vg [] = pure []
  list_entries vg ((name, file b) ∷ es) = list_entries vg es
  list_entries vg ((name, dir) ∷ es) = do
    vol ←
        map_err (λ e. text "Parse metadata: " ++ (name ++ (text ", with error: " ++ e)))
          (get_vol_meta vg name)
    vols ← list_entries vg es
    pure (vol ∷ vols)

  abbrev list_opened : Text → Outcome Text (Unit {0}) → Os (List Vol)
  list_opened vg (err e) = pure []
  list_opened vg panic = λ w. (panic, w)
  list_opened vg (ok _) = do
    dirs ← map_err (λ e. text "failed to walkup dir " ++ vg) (read_dir (group_path vg))
    list_entries vg dirs

  -- `ListVol`
  unfoldable pub list_vol : Text → Os (List Vol)
  unfolding list_entries
  list_vol vg = do opened ← attempt (os_open (group_path vg)); list_opened vg opened

  abbrev pub new_vol : Text → Text → ℕ → Vol
  new_vol vg name size = record {
    name = name;
    size = size;
    tags = [];
    vg_name = vg;
    status = text "ok";
    snapshot_name = [];
    clone_name = [];
  }

  -- `CreateVol`
  unfoldable pub create_vol : Text → Text → ℕ → Os Text
  unfolding write_meta
  create_vol vg name size = do
    map_err (failed_to "failed to create " (vol_path vg name)) (mkdir_all (vol_path vg name))
    map_err (failed_to "failed to mount point " (vol_path vg name))
        (mkdir_all (mount_point vg name))
    write_meta (meta_path vg name) (new_vol vg name size)
    pure name

  abbrev pub load : Text → Text → Os Vol
  load vg vol =
      map_err (λ e. text "failed to load vol " ++ (vol ++ (text " metadata, err: " ++ e)))
        (get_vol_meta vg vol)

  -- The three steps that `CloneVol` and `CreateSnapshot` share: they make the directories of
  -- `dest`, copy the data of `src`, and write the metadata.
  unfoldable pub copy_vol : Text → Text → Text → Os Vol
  unfolding get_vol_meta copy_tree write_meta
  copy_vol vg src dest = do
    src_info ← load vg src
    map_err (failed_to "failed to create " (vol_path vg dest)) (mkdir_all (vol_path vg dest))
    map_err (failed_to "failed to mount point " (vol_path vg dest))
        (mkdir_all (mount_point vg dest))
    copy_tree (mount_point vg src) (mount_point vg dest)
    write_meta (meta_path vg dest) (record src_info { name = dest })
    pure (record src_info { name = dest })

  -- `CloneVol`
  unfoldable pub clone_vol : Text → Text → Text → Os Text
  unfolding copy_vol
  clone_vol vg src dest = do copy_vol vg src dest; pure dest

  -- `CreateSnapshot`. The size is an uint64 here.
  unfoldable pub create_snapshot : Text → Text → Text → Os ℕ
  unfolding copy_vol
  create_snapshot vg snapshot src = do vol ← copy_vol vg src snapshot; pure vol.size

  -- `ExpandVol`
  unfoldable pub expand_vol : Text → Text → ℕ → Os Text
  unfolding get_vol_meta write_meta
  expand_vol vg vol expect_size = do
    info ← load vg vol
    ignore (os_remove (meta_path vg vol))
    write_meta (meta_path vg vol) (record info { size = expect_size })
    pure vol
