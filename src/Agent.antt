-- ===== src/Agent.antt =====
-- pkg/driver/agent.go: the handlers of a node. What they call of k8s.io/mount-utils and of the operating
-- system is a parameter, `Mounter`.
pub mod Mounts
pub mod Stats
pub mod Info
use csi_hostpath.Base.{
  ℕ, Bool, true, false, not, Option, none, some, List, [], ◌∷◌, ◌++◌, ◌⊎◌, Text, text, Exec, pure,
  fail, guard, map_err, ◌>>=◌, ◌>>◌, ◌==◌, list_eq, nat_eq, if◌then◌else◌,
}
use csi_hostpath.Base.Dict.{Dict, lookup}
use csi_hostpath.Base.Int.{ℤ}
use csi_hostpath.Cluster.{vg_name_key}
use csi_hostpath.HostPath.{get_vol_path}
use csi_hostpath.Controller.{
  Code, invalid_argument, internal, unknown, or_internal, check, returned,
}
use csi_hostpath.Controller.Requests.{
  VolumeCapability, AccessType, no_access_type, block, mount, at,
}

-- `is_missing` is `os.IsNotExist` of the error of `Stat`. A call returns the text of its error, or its
-- result.
pub record Mounter : Type 1 where
  pub State : Type 0
  pub is_missing : Text → State → Bool
  pub mkdir_all : Text → State → (Text ⊎ Unit {0}) × State
  pub is_likely_not_mount_point : Text → State → Text ⊎ Bool
  pub mount : Text → Text → Text → List Text → State → (Text ⊎ Unit {0}) × State
  pub cleanup_mount_point : Text → State → (Text ⊎ Unit {0}) × State

pub record NodePublishVolumeRequest : Type 0 where
  pub volume_id : Text
  pub target_path : Text
  pub volume_capability : Option VolumeCapability
  pub volume_context : Dict Text Text
  pub readonly : Bool

pub record NodeExpandVolumeRequest : Type 0 where
  pub volume_id : Text
  pub volume_path : Text
  pub required_bytes : ℤ

-- `validateNodePublishReq`
unfoldable pub validate_node_publish_req : NodePublishVolumeRequest → Option Code
validate_node_publish_req req = elim req.volume_capability [
  | none ↦ some invalid_argument
  | some c ↦ if req.volume_id == [] then some invalid_argument else none
]

-- `validateNodeUnpublishReq`
unfoldable pub validate_node_unpublish_req : Text → Text → Option Code
validate_node_unpublish_req volume_id target_path =
    if volume_id == []
    then some invalid_argument
    else if target_path == []
    then some invalid_argument
    else none

-- The flags and the type of the file system that a volume is mounted with
unfoldable pub mount_options : Bool → List Text → List Text
unfolding text
mount_options readonly flags =
    let options = flags ++ (text "bind" ∷ []) in
    if readonly then options ++ (text "ro" ∷ []) else options

unfoldable pub mount_type : Text → Text
unfolding text
mount_type fs_type = if fs_type == [] then text "ext4" else fs_type

unfoldable pub source_path : NodePublishVolumeRequest → Text
unfolding get_vol_path
source_path req = get_vol_path (at req.volume_context vg_name_key) req.volume_id

module _ {S A : Type 0} where
  -- A call of the mounter
  abbrev pub run : (S → (Text ⊎ A) × S) → Exec S Text A
  run m s = let (r, s') = m s in (returned r, s')

  abbrev pub query : (S → Text ⊎ A) → Exec S Text A
  query q s = (returned (q s), s)

abbrev pub access_type_of : Option VolumeCapability → AccessType
access_type_of none = no_access_type
access_type_of (some c) = c.access_type

module _ (M : Mounter) where
  -- `mountMountPointVolume`, for the file system and the flags of the request's mount
  unfoldable pub mount_mount_point_volume :
      NodePublishVolumeRequest → Text → List Text → Exec M.State Text (Unit {0})
  unfolding source_path mount_options mount_type text
  mount_mount_point_volume req fs_type flags = do
    guard (not (source_path req == [])) (text "mountMountPointVolume: sourcePath is empty")
    notmounted ← query (M.is_likely_not_mount_point req.target_path)
    if notmounted
        then run (
            M.mount (source_path req) req.target_path (mount_type fs_type)
              (mount_options req.readonly flags))
        else pure tt

  -- `Stat` and, where the target is missing, `MkdirAll`
  unfoldable pub make_target : Text → Exec M.State Code (Unit {0})
  make_target target_path s =
      if M.is_missing target_path s
      then map_err (λ _. unknown) (run (M.mkdir_all target_path)) s
      else (pure tt s)

  -- The switch on the access type
  unfoldable pub publish_by : NodePublishVolumeRequest → AccessType → Exec M.State Code (Unit {0})
  unfolding mount_mount_point_volume make_target
  publish_by req block = pure tt
  publish_by req no_access_type = pure tt
  publish_by req (mount fs_type flags) = do
    make_target req.target_path
    or_internal (mount_mount_point_volume req fs_type flags)

  unfoldable pub node_publish_volume : NodePublishVolumeRequest → Exec M.State Code (Unit {0})
  unfolding validate_node_publish_req publish_by
  node_publish_volume req = do
    check (validate_node_publish_req req)
    guard (not (req.volume_id == [])) invalid_argument
    guard (not (req.target_path == [])) invalid_argument
    publish_by req (access_type_of req.volume_capability)

  unfoldable pub node_unpublish_volume : Text → Text → Exec M.State Code (Unit {0})
  unfolding validate_node_unpublish_req
  node_unpublish_volume volume_id target_path = do
    check (validate_node_unpublish_req volume_id target_path)
    or_internal (run (M.cleanup_mount_point target_path))

-- `NodeExpandVolume`, which changes nothing: it repeats the size of the request.
unfoldable pub node_expand_volume : {S : Type 0} → NodeExpandVolumeRequest → Exec S Code ℤ
node_expand_volume req = do
  guard (not (req.volume_path == [])) invalid_argument
  guard (not (req.volume_id == [])) invalid_argument
  pure req.required_bytes

-- `NodeGetCapabilities`: GET_VOLUME_STATS, EXPAND_VOLUME and VOLUME_CONDITION
abbrev pub node_get_capabilities : List ℕ
node_get_capabilities = 2 ∷ 3 ∷ 4 ∷ []

-- `NodeStageVolume` and `NodeUnstageVolume` do nothing.
abbrev pub node_stage_volume : {S : Type 0} → Exec S Code (Unit {0})
node_stage_volume = pure tt

abbrev pub node_unstage_volume : {S : Type 0} → Exec S Code (Unit {0})
node_unstage_volume = pure tt
