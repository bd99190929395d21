-- ===== src/Tests/Controller.antt =====
-- The handlers of the controller on the cluster and the connection of the tests.
use csi_hostpath.Base.{
  ◌≢◌, ℕ, ◌≡◌, refl, ◌+◌, ◌<◌, ◌≤◌, ◌%◌, ◌↔◌, arith, none, some, [], ◌∷◌, Text, text, ok, list_beq,
  list_eq, nat_eq,
}
use csi_hostpath.Base.Int.{pos, to_uint64, add64, sub64, mul64, quot64}
use csi_hostpath.Cluster.{}
use csi_hostpath.Controller.{Session}
use csi_hostpath.Controller.Capacity.{get_rounded_capacity, get_rounded_capacity_lem, mi, unit_of}
use csi_hostpath.Controller.Requests.{
  ControllerExpandVolumeRequest, CreateSnapshotRequest, CreateVolumeGroupSnapshotRequest,
  CreateVolumeRequest, from_volume, mount, validate_volume_create_req,
}
use csi_hostpath.Controller.Checks.{AllSupported, validate_volume_create_req_lem}
use csi_hostpath.Controller.Volumes.{
  create_volume, delete_volume, controller_expand_volume, create_volume_response,
}
use csi_hostpath.Controller.Snapshots.{create_snapshot, delete_snapshot, snapshot_of}
use csi_hostpath.Controller.Groups.{create_volume_group_snapshot, delete_volume_group_snapshot}
use csi_hostpath.Controller.Connections.{Balanced}
use csi_hostpath.Controller.Connections.Handlers.{handlers-Balanced}
use csi_hostpath.Tests.Memory.{Memory, memory, cluster, node_name}

abbrev addr : Text
unfolding text
addr = text "1.2.3.4:9091"

abbrev pool : Text
unfolding text
pool = text "pool"

abbrev clone_request : CreateVolumeRequest
unfolding text
clone_request = record {
  name = text "PVC";
  required_bytes = pos 5;
  volume_capabilities = (record { access_mode = some 1; access_type = mount [] [] }) ∷ [];
  parameters =
      (text "hostpath", pool)
      ∷ (text "csi.storage.k8s.io/pvc/name", text "c")
      ∷ (text "csi.storage.k8s.io/pvc/namespace", text "d")
      ∷ [];
  volume_content_source = some (from_volume (text "src"));
}

abbrev start : Session Memory
start = ((λ k. none), 0)

abbrev after_create : Session Memory
after_create = (create_volume cluster memory clone_request start).1

create_volume_test :
    (create_volume cluster memory clone_request start).0
    ≡ ok (create_volume_response clone_request node_name)
unfolding create_volume text list_beq
create_volume_test = refl

abbrev pvc : Text
unfolding text
pvc = text "pvc"

delete_volume_test : (delete_volume cluster memory pvc after_create).0 ≡ ok tt
unfolding create_volume delete_volume text list_beq
delete_volume_test = refl

abbrev snapshot_request : CreateSnapshotRequest
unfolding text
snapshot_request = record { name = text "snap"; source_volume_id = text "pvc" }

abbrev after_snapshot : Session Memory
after_snapshot = (create_snapshot cluster memory snapshot_request after_create).1

create_snapshot_test :
    (create_snapshot cluster memory snapshot_request after_create).0
    ≡ ok (snapshot_of cluster snapshot_request (pos mi))
unfolding create_volume create_snapshot text list_beq get_rounded_capacity to_uint64 mul64 quot64
    sub64 add64
create_snapshot_test = refl

delete_snapshot_test : (delete_snapshot cluster memory (text "snap") after_snapshot).0 ≡ ok tt
unfolding create_volume create_snapshot delete_snapshot text list_beq
delete_snapshot_test = refl

abbrev two : CreateVolumeGroupSnapshotRequest
unfolding text
two = record { name = text "g"; source_volume_ids = text "a" ∷ text "b" ∷ [] }

abbrev grow : ControllerExpandVolumeRequest
unfolding text
grow = record { volume_id = text "pvc"; required_bytes = pos 9 }

handlers-Balanced_example :
    Balanced (create_volume cluster memory clone_request)
    × Balanced (delete_volume cluster memory pvc)
    × Balanced (controller_expand_volume cluster memory grow)
    × Balanced (create_snapshot cluster memory snapshot_request)
    × Balanced (delete_snapshot cluster memory pvc)
    × Balanced (create_volume_group_snapshot cluster memory two)
    × Balanced (delete_volume_group_snapshot cluster memory (pvc ∷ addr ∷ []))
handlers-Balanced_example =
    handlers-Balanced cluster memory clone_request pvc grow snapshot_request two (pvc ∷ addr ∷ [])

get_rounded_capacity_example :
    (k : ℕ) × (get_rounded_capacity (pos 1073741825) ≡ pos k)
    × (1073741825 ≤ k)
    × (k < 1073741825 + unit_of 1073741825)
    × (k % unit_of 1073741825 ≡ 0)
get_rounded_capacity_example = get_rounded_capacity_lem 1073741825 (omega arith)

validate_volume_create_req_example : (validate_volume_create_req clone_request ≡ none) ↔ (
    (clone_request.name ≢ [])
    × (clone_request.volume_capabilities ≢ [])
    × AllSupported clone_request.volume_capabilities)
validate_volume_create_req_example = validate_volume_create_req_lem clone_request
