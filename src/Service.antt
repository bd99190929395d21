-- ===== src/Service.antt =====
-- The node's service: the messages of pkg/lib/vol.pb.go, and the handlers of pkg/server/server.go,
-- which run a command and wrap its error. `ListSnapshot` and the getters of the messages are not
-- modelled.
pub mod Start
use csi_hostpath.Base.{
  ℕ, String, List, [], map, Text, text, pure, ◌>>=◌, map_err, ◌++◌, ◌==◌, list_eq, nat_eq, not,
  if◌then◌else◌,
}
use csi_hostpath.Base.Int.{ℤ, to_int64}
use csi_hostpath.FileSystem.{Os}
use csi_hostpath.Volume.{LogicalVolume, to_proto}
use csi_hostpath.Volume.Codec.{Codec}
use csi_hostpath.HostPath

pub record ListVolRequest : Type 0 where
  pub volume_group : Text

pub record ListVolReply : Type 0 where
  pub volumes : List LogicalVolume

pub record CreateVolRequest : Type 0 where
  pub volume_group : Text
  pub name : Text
  pub size : ℕ
  pub clone_name : Text
  pub tags : List Text
  pub snapshot_name : Text

pub record CreateVolReply : Type 0 where
  pub command_output : Text

pub record RemoveVolRequest : Type 0 where
  pub volume_group : Text
  pub name : Text

pub record RemoveVolReply : Type 0 where
  pub command_output : Text

pub record CloneVolRequest : Type 0 where
  pub vg_name : Text
  pub source_name : Text
  pub dest_name : Text

pub record CloneVolReply : Type 0 where
  pub command_output : Text

pub record ExpandVolRequest : Type 0 where
  pub volume_group : Text
  pub name : Text
  pub size : ℕ

pub record ExpandVolReply : Type 0 where
  pub command_output : Text

pub record CreateSnapshotRequest : Type 0 where
  pub vg_name : Text
  pub snapshot_name : Text
  pub src_volume_name : Text

pub record CreateSnapshotReply : Type 0 where
  pub size_bytes : ℤ

pub record RemoveSnapshotRequest : Type 0 where
  pub vg_name : Text
  pub snapshot_name : Text

pub record RemoveSnapshotReply : Type 0 where
  pub command_output : Text

-- `GetLvmdPort`
abbrev pub lvmd_port : Text
unfolding text
lvmd_port = text "9091"

-- `Start`: the address that the service listens at
unfoldable pub service_address : Text → Text
unfolding text
service_address port = text ":" ++ port

-- `status.Errorf(codes.Internal, "…: %v", err)`, as its `Error` method prints it
abbrev internal : String → Text → Text
internal what e = text "rpc error: code = Internal desc = " ++ (text what ++ e)

module _ (J : Codec) where
  unfoldable pub list_vol : ListVolRequest → Os ListVolReply
  list_vol req = do
    lvs ← map_err (internal "failed to list LVs: ") (HostPath.list_vol J req.volume_group)
    pure (record { volumes = map to_proto lvs })

  -- The command that the names in the request choose
  unfoldable pub create_command : CreateVolRequest → Os Text
  create_command req =
      if not (req.snapshot_name == [])
      then map_err (internal "failed to create vol from snapshot: ")
          (HostPath.clone_vol J req.volume_group req.snapshot_name req.name)
      else if not (req.clone_name == [])
      then map_err (internal "failed to create vol from clone: ")
          (HostPath.clone_vol J req.volume_group req.clone_name req.name)
      else map_err (internal "failed to create vol: ")
          (HostPath.create_vol J req.volume_group req.name req.size)

  unfoldable pub create_vol : CreateVolRequest → Os CreateVolReply
  unfolding create_command
  create_vol req = do out ← create_command req; pure (record { command_output = out })

  unfoldable pub remove_vol : RemoveVolRequest → Os RemoveVolReply
  remove_vol req = do
    out ← map_err (internal "failed to remove lv: ") (HostPath.remove_vol req.volume_group req.name)
    pure (record { command_output = out })

  unfoldable pub clone_vol : CloneVolRequest → Os CloneVolReply
  clone_vol req = do
    out ←
        map_err (internal "failed to clone lv: ")
          (HostPath.clone_vol J req.vg_name req.source_name req.dest_name)
    pure (record { command_output = out })

  unfoldable pub expand_vol : ExpandVolRequest → Os ExpandVolReply
  expand_vol req = do
    out ←
        map_err (internal "failed to expand lv: ")
          (HostPath.expand_vol J req.volume_group req.name req.size)
    pure (record { command_output = out })

  unfoldable pub create_snapshot : CreateSnapshotRequest → Os CreateSnapshotReply
  unfolding to_int64
  create_snapshot req = do
    size ←
        map_err (λ e. internal "fail to create snapshot " (req.snapshot_name ++ (text ": " ++ e)))
          (HostPath.create_snapshot J req.vg_name req.snapshot_name req.src_volume_name)
    pure (record { size_bytes = to_int64 size })

  unfoldable pub remove_snapshot : RemoveSnapshotRequest → Os RemoveSnapshotReply
  remove_snapshot req = do
    out ←
        map_err (internal "RemoveSnapshot: remove snapshot with error: ")
          (HostPath.remove_snapshot req.vg_name req.snapshot_name)
    pure (record { command_output = out })
