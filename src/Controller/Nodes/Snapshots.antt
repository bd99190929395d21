-- ===== src/Controller/Nodes/Snapshots.antt =====
-- `CreateSnapshot` over the connection that calls the services of the nodes.
use csi_hostpath.Base.{nat_eq, list_eq}
use csi_hostpath.Volume.Codec.{Codec}
use csi_hostpath.Client.Remote
use csi_hostpath.Client.Remote.{Nodes}
use csi_hostpath.Cluster.{Cluster}
