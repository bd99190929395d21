-- ===== src/Tests/Nodes/Snapshots.antt =====
-- A snapshot, and the same request again, over the node with one volume.
use csi_hostpath.Base.{Text, text, list_eq, nat_eq}
use csi_hostpath.Volume.{Vol}
use csi_hostpath.Client.Remote.{Nodes}
use csi_hostpath.Controller.Requests.{CreateSnapshotRequest}
use csi_hostpath.Tests.Nodes.{pvc, volume}

abbrev snap : Text
unfolding text
snap = text "s"

abbrev request : CreateSnapshotRequest
request = record { name = snap; source_volume_id = pvc }

abbrev taken : Vol
taken = record volume { name = snap }
