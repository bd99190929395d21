-- ===== src/Volume.antt =====
-- pkg/lib/parser.go: the record of a volume that the node keeps in its metadata file; the message
-- of pkg/lib/vol.proto that stands for it on the wire; and the encoding of the record as JSON.
pub mod Codec
pub mod Attributes
use csi_hostpath.Base.{ℕ, List, Text}

-- `lib.Vol`
pub record Vol : Type 0 where
  pub name : Text
  pub size : ℕ
  pub tags : List Text
  pub vg_name : Text
  pub status : Text
  pub snapshot_name : Text
  pub clone_name : Text

-- `lib.LogicalVolume`
pub record LogicalVolume : Type 0 where
  pub volume_group : Text
  pub name : Text
  pub size : ℕ
  pub clone_name : Text
  pub tags : List Text
  pub snapshot_name : Text
  pub status : Text

-- `func (lv Vol) ToProto() *LogicalVolume`
abbrev pub to_proto : Vol → LogicalVolume
to_proto lv = record {
  volume_group = lv.vg_name;
  name = lv.name;
  size = lv.size;
  clone_name = lv.clone_name;
  tags = lv.tags;
  snapshot_name = lv.snapshot_name;
  status = lv.status;
}

-- `lib.VG`
pub record Vg : Type 0 where
  pub name : Text
  pub size : ℕ
  pub free_size : ℕ
  pub uuid : Text
  pub tags : List Text
  pub pv_count : ℕ

-- `lib.VolumeGroup`
pub record VolumeGroup : Type 0 where
  pub name : Text
  pub size : ℕ
  pub free_size : ℕ
  pub uuid : Text
  pub tags : List Text
  pub host_path : ℕ

-- `func (vg VG) ToProto() *VolumeGroup`
abbrev pub group_to_proto : Vg → VolumeGroup
group_to_proto vg = record {
  name = vg.name;
  size = vg.size;
  free_size = vg.free_size;
  uuid = vg.uuid;
  tags = vg.tags;
  host_path = 0;
}
