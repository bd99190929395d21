-- ===== src/Tool.antt =====
-- pkg/utils/common.go and pkg/utils/os_tool.go: the calls of the operating system that a node may be
-- given, over the files of a node, and the tool of the tests, which does nothing. Running a program,
-- `unix.Stat` and the mounter are parameters.

use csi_hostpath.Base.{
  ℕ, String, ◌/◌, ◌%◌, Bool, true, false, Option, none, some, List, [], ◌∷◌, ◌++◌, ◌⊎◌, inl, inr,
  Text, text, Outcome, ok, err, pure, fail, guard, map_err, ◌>>=◌, ◌>>◌, ◌==◌, list_eq, nat_eq, not,
  if◌then◌else◌, contains,
}
use csi_hostpath.FileSystem.{
  ◌//◌, components, Node, dir, World, Os, find, fault_error, system_call, open_file, os_remove,
  mkdir_all,
}
use csi_hostpath.HostPath.{ignore}

-- `GetNameKey`
unfoldable pub get_name_key : Text → Text → Text
get_name_key name_space name = name_space // name

-- `os.Lstat` and `os.Stat`, by their names. An error that says that nothing is there is no node.
unfoldable pub look : String → Text → Os (Option Node)
unfolding system_call
look op t = system_call (λ f. fail (fault_error op t f)) (λ w. pure (find (components t) w) w)

abbrev clear_directory : Text → Option Node → Os (Unit {0})
clear_directory target (some dir) = ignore (os_remove target)
clear_directory target _ = pure tt

-- `EnsureBlock`. The closing of the file is not modelled.
unfoldable pub ensure_block : Text → Os (Unit {0})
unfolding look text
ensure_block target = do
  found ← look "lstat" target
  clear_directory target found
  map_err (λ e. text "failed to create block:" ++ target ++ text " with error: " ++ e)
      (open_file target false)

-- `strings.Join(texts, sep)`
unfoldable pub join : Text → List Text → Text
join sep [] = []
join sep (t ∷ []) = t
join sep (t ∷ u ∷ ts) = t ++ sep ++ join sep (u ∷ ts)

-- What the calls of other programs and packages do. `run` is `exec.Command` with its combined output:
-- the output, or the output and an error. `stat_mode` is the mode that `unix.Stat` gives, `quoted` is
-- `%q`, `formatted` is `fmt.Errorf` of a format without arguments, and the last two are `CleanupMountPoint` and `Resize` of k8s.io/mount-utils.
pub record Programs : Type 0 where
  pub run : Text → List Text → World → (Text × Text ⊎ Text) × World
  pub stat_mode : Text → World → Text ⊎ ℕ
  pub quoted : Text → Text
  pub formatted : Text → Text
  pub cleanup : Text → Bool → Os (Unit {0})
  pub resize : Text → Text → Os Bool

abbrev finished : (Text → Text → Text) → Text × Text ⊎ Text → Outcome Text Text
finished wrap (inr out) = ok out
finished wrap (inl (out, e)) = err (wrap out e)

abbrev run_failed : Text → Text → Text → Text
unfolding text
run_failed cmd out e =
    text "Failed to run cmd: " ++ cmd ++ text ", with out: " ++ out ++ text ", with error: " ++ e

abbrev stat_type : Text ⊎ ℕ → Outcome Text Bool
stat_type (inl e) = err e
stat_type (inr mode) = ok (mode / 4096 % 16 == 6)

-- The arguments of `mount`
unfoldable pub mount_args : Text → Text → List Text → List Text
unfolding text
mount_args source target [] = source ∷ (target ∷ [])
mount_args source target (o ∷ opts) =
    text "-o" ∷ (join (text ",") (o ∷ opts) ∷ (source ∷ (target ∷ [])))

module _ (P : Programs) where
  abbrev mount_failed : List Text → Text → Text → Text
  unfolding text
  mount_failed args out e =
      text "mounting failed: "
      ++ e
      ++ text " cmd: 'mount "
      ++ join (text " ") args
      ++ text "' output: "
      ++ P.quoted out

  -- The program that is run, with the text of its error
  abbrev command : Text → List Text → (Text → Text → Text) → Os Text
  command name args wrap w = let (r, w') = P.run name args w in (finished wrap r, w')

  -- `Run`
  unfoldable pub run : Text → Os Text
  unfolding text
  run cmd =
      command (text "sh") (text "-c" ∷ (cmd ∷ [])) (λ out e. P.formatted (run_failed cmd out e))

  -- `IsBlockDevice`: the four bits of the mode from `S_IFMT` are those of `S_IFBLK`.
  unfoldable pub is_block_device : Text → Os Bool
  is_block_device full_path w = (stat_type (P.stat_mode full_path w), w)

  -- `MountBlock`. `os.Create` truncates a file that is there.
  unfoldable pub mount_block : Text → Text → List Text → Os (Unit {0})
  unfolding text
  mount_block source target opts = do
    guard (not (source == [])) (text "source is not specified for mounting the volume")
    guard (not (target == [])) (text "target is not specified for mounting the volume")
    open_file target true
    command (text "mount") (mount_args source target opts)
        (mount_failed (mount_args source target opts))
    pure tt

-- `OSTool`. `Stat` gives the file, or no information.
pub record OsTool : Type 0 where
  pub remove : Text → Os (Unit {0})
  pub stat : Text → Os (Option Node)
  pub make_dirs : Text → Os (Unit {0})
  pub run_command : Text → Os Text
  pub block_device : Text → Os Bool
  pub mount_device : Text → Text → List Text → Os (Unit {0})
  pub make_block : Text → Os (Unit {0})
  pub cleanup_mount_point : Text → Bool → Os (Unit {0})
  pub resize_fs : Text → Text → Os Bool

abbrev pub stat_found : Text → Option Node → Os (Option Node)
unfolding text
stat_found t (some n) = pure (some n)
stat_found t none = fail (text "stat " ++ t ++ text ": no such file or directory")

-- `NewOSTool`
abbrev pub os_tool : Programs → OsTool
os_tool P = record {
  remove = os_remove;
  stat = λ name. look "stat" name >>= stat_found name;
  make_dirs = mkdir_all;
  run_command = run P;
  block_device = is_block_device P;
  mount_device = mount_block P;
  make_block = ensure_block;
  cleanup_mount_point = P.cleanup;
  resize_fs = P.resize;
}

-- `NewFakeOSTool`
abbrev pub fake_os_tool : OsTool
unfolding text
fake_os_tool = record {
  remove = λ name. pure tt;
  stat = λ name.
      if contains (text "snapshot") name then pure none else fail (text "file does not exist");
  make_dirs = λ path. pure tt;
  run_command = λ cmd. pure [];
  block_device = λ full_path. pure true;
  mount_device = λ source target opts. pure tt;
  make_block = λ target. pure tt;
  cleanup_mount_point = λ mount_path extensive. pure tt;
  resize_fs = λ device_path mount_path. pure true;
}
