-- ===== src/Controller/Connections/Handlers.antt =====
-- The handlers of the volumes, the snapshots and the groups together.
use csi_hostpath.Base.{List, Text, list_eq, nat_eq}
use csi_hostpath.Cluster.{Cluster}
use csi_hostpath.Client.{Connection}
use csi_hostpath.Controller.{}
use csi_hostpath.Controller.Requests.{
  CreateVolumeRequest, ControllerExpandVolumeRequest, CreateSnapshotRequest,
  CreateVolumeGroupSnapshotRequest,
}
use csi_hostpath.Controller.Volumes.{create_volume, delete_volume, controller_expand_volume}
use csi_hostpath.Controller.Snapshots.{create_snapshot, delete_snapshot}
use csi_hostpath.Controller.Groups.{create_volume_group_snapshot, delete_volume_group_snapshot}
use csi_hostpath.Controller.Connections.{Balanced}
use csi_hostpath.Controller.Connections.Volumes.{
  create_volume-Balanced, delete_volume-Balanced, controller_expand_volume-Balanced,
}
use csi_hostpath.Controller.Connections.Snapshots.{
  create_snapshot-Balanced, delete_snapshot-Balanced,
}
use csi_hostpath.Controller.Connections.Groups.{
  create_volume_group_snapshot-Balanced, delete_volume_group_snapshot-Balanced,
}

module _ (K : Cluster) (conn : Connection) where
  -- `CreateVolume`, `DeleteVolume`, `ControllerExpandVolume`, `CreateSnapshot`, `DeleteSnapshot`,
  -- `CreateVolumeGroupSnapshot` and `DeleteVolumeGroupSnapshot` leave as many connections open as
  -- they found, whether they return, return an error or panic, and whatever the node answers.
  pub handlers-Balanced :
      (create : CreateVolumeRequest) (id : Text) (expand : ControllerExpandVolumeRequest)
      (snapshot : CreateSnapshotRequest) (group : CreateVolumeGroupSnapshotRequest)
      (ids : List Text)
      → Balanced (create_volume K conn create)
        × Balanced (delete_volume K conn id)
        × Balanced (controller_expand_volume K conn expand)
        × Balanced (create_snapshot K conn snapshot)
        × Balanced (delete_snapshot K conn id)
        × Balanced (create_volume_group_snapshot K conn group)
        × Balanced (delete_volume_group_snapshot K conn ids)
  handlers-Balanced create id expand snapshot group ids = (
    create_volume-Balanced K conn create,
    delete_volume-Balanced K conn id,
    controller_expand_volume-Balanced K conn expand,
    create_snapshot-Balanced K conn snapshot,
    delete_snapshot-Balanced K conn id,
    create_volume_group_snapshot-Balanced K conn group,
    delete_volume_group_snapshot-Balanced K conn ids,
  )
