-- ===== src/Controller/Requests.antt =====
-- pkg/driver/controller.go, pkg/driver/params.go: the requests and responses of the handlers, and the
-- checks that a request meets first. Numbers stand for the members of the enumerations of the CSI.
use csi_hostpath.Base.{
  ℕ, Option, none, some, List, [], ◌∷◌, Bool, true, false, ◌&&◌, ◌||◌, Text, text, nat_eq, list_eq,
  ◌==◌, if◌then◌else◌, to_lower,
}
use csi_hostpath.Base.Int.{ℤ}
use csi_hostpath.Base.Dict.{Dict, lookup}
use csi_hostpath.Controller.{Code, invalid_argument, unknown}

-- `VolumeCapability`: its access mode, and its access type
pub data AccessType : Type 0 where
  no_access_type : AccessType
  block : AccessType
  mount : (fs_type : Text) (mount_flags : List Text) → AccessType

pub record VolumeCapability : Type 0 where
  pub access_mode : Option ℕ
  pub access_type : AccessType

-- `VolumeContentSource`
pub data ContentSource : Type 0 where
  no_source : ContentSource
  from_snapshot : Text → ContentSource
  from_volume : Text → ContentSource

-- A request without a capacity range requires 0 bytes. A repeated field that is empty is nil.
pub record CreateVolumeRequest : Type 0 where
  pub name : Text
  pub required_bytes : ℤ
  pub volume_capabilities : List VolumeCapability
  pub parameters : Dict Text Text
  pub volume_content_source : Option ContentSource

pub record CreateVolumeResponse : Type 0 where
  pub volume_id : Text
  pub capacity_bytes : ℤ
  pub volume_context : Dict Text Text
  pub content_source : Option ContentSource
  pub accessible_topology : Dict Text Text

pub record ControllerExpandVolumeRequest : Type 0 where
  pub volume_id : Text
  pub required_bytes : ℤ

pub record ControllerExpandVolumeResponse : Type 0 where
  pub capacity_bytes : ℤ
  pub node_expansion_required : Bool

pub record CreateSnapshotRequest : Type 0 where
  pub name : Text
  pub source_volume_id : Text

-- `csi.Snapshot`
pub record Snapshot : Type 0 where
  pub size_bytes : ℤ
  pub snapshot_id : Text
  pub source_volume_id : Text
  pub creation_time : Option ℤ
  pub ready_to_use : Bool
  pub group_snapshot_id : Text

pub record CreateVolumeGroupSnapshotRequest : Type 0 where
  pub name : Text
  pub source_volume_ids : List Text

pub record VolumeGroupSnapshot : Type 0 where
  pub group_snapshot_id : Text
  pub snapshots : List Snapshot
  pub creation_time : ℤ
  pub ready_to_use : Bool

-- `NewVolumeParams`
pub record VolumeParams : Type 0 where
  pub pvc_name : Text
  pub pvc_namespace : Text
  pub pv_name : Text
  pub host_path : Text

-- `m[key]` of a map to strings
abbrev pub at : Dict Text Text → Text → Text
unfolding lookup
at m key = elim (lookup key m) [ some v ↦ v | none ↦ [] ]

unfoldable pub new_volume_params : Dict Text Text → VolumeParams
unfolding text
new_volume_params m = record {
  pvc_name = at m (text "csi.storage.k8s.io/pvc/name");
  pvc_namespace = at m (text "csi.storage.k8s.io/pvc/namespace");
  pv_name = at m (text "csi.storage.k8s.io/pv/name");
  host_path = at m (text "hostpath");
}

unfoldable pub member : ℕ → List ℕ → Bool
member n [] = false
member n (m ∷ ms) = if n == m then true else member n ms

-- `SupportedVolumeCapabilityAccessModes`: `SINGLE_NODE_WRITER`
abbrev pub supported_volume_capability_access_modes : List ℕ
supported_volume_capability_access_modes = 1 ∷ []

-- `IsSupportedVolumeCapabilityAccessMode`
unfoldable pub is_supported_volume_capability_access_mode : ℕ → Bool
unfolding member
is_supported_volume_capability_access_mode access_mode =
    member access_mode supported_volume_capability_access_modes

-- `newControllerCapabilities`
abbrev pub create_delete_volume : ℕ
create_delete_volume = 1

abbrev pub new_controller_capabilities : List ℕ
new_controller_capabilities = create_delete_volume ∷ 7 ∷ 9 ∷ 5 ∷ 4 ∷ 11 ∷ 3 ∷ 12 ∷ 6 ∷ []

-- `validateRequest`; the checks return the error, if there is one.
unfoldable pub validate_request : ℕ → Option Code
unfolding member
validate_request c = if member c new_controller_capabilities then none else some invalid_argument

-- `validateSupportedVolumeCapabilities`
unfoldable pub mode_error : Option ℕ → Option Code
unfolding member
mode_error none = none
mode_error (some m) =
    if member m supported_volume_capability_access_modes then none else some invalid_argument

abbrev pub type_error : AccessType → Option Code
type_error no_access_type = some invalid_argument
type_error block = none
type_error (mount fs_type flags) = none

unfoldable pub validate_supported_volume_capabilities : VolumeCapability → Option Code
unfolding mode_error
validate_supported_volume_capabilities vol_cap = elim (mode_error vol_cap.access_mode) [
  | some c ↦ some c
  | none ↦ type_error vol_cap.access_type
]

unfoldable pub validate_all : List VolumeCapability → Option Code
unfolding validate_supported_volume_capabilities
validate_all [] = none
validate_all (c ∷ cs) = elim (validate_supported_volume_capabilities c) [
  | some e ↦ some e
  | none ↦ validate_all cs
]

-- `validateVolumeCreateReq`
unfoldable pub validate_volume_create_req : CreateVolumeRequest → Option Code
unfolding validate_request validate_all
validate_volume_create_req req = elim (validate_request create_delete_volume) [
  | some _ ↦ some unknown
  | none ↦ if req.name == [] then some invalid_argument else (elim req.volume_capabilities [
    | [] ↦ some invalid_argument
    | c ∷ cs ↦ validate_all (c ∷ cs)
  ])
]

-- `validateDeleteVolumeReq`
unfoldable pub validate_delete_volume_req : Text → Option Code
unfolding validate_request to_lower
validate_delete_volume_req volume_id =
    if to_lower volume_id == []
    then some invalid_argument
    else (elim (validate_request create_delete_volume) [ some _ ↦ some unknown | none ↦ none ])

-- `validateSnapshotRequest`
unfoldable pub validate_snapshot_request : CreateSnapshotRequest → Option Code
unfolding to_lower
validate_snapshot_request req =
    if to_lower req.name == [] || to_lower req.source_volume_id == []
    then some invalid_argument
    else none

-- `GetMode` of an access mode, which may be nil
abbrev pub get_mode : Option ℕ → ℕ
get_mode none = 0
get_mode (some m) = m

-- `isValidVolumeCapabilities`
unfoldable pub is_valid_volume_capabilities : List VolumeCapability → Bool
unfolding member
is_valid_volume_capabilities [] = true
is_valid_volume_capabilities (c ∷ cs) =
    member (get_mode c.access_mode) supported_volume_capability_access_modes
    && is_valid_volume_capabilities cs
