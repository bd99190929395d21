-- ===== src/Tests/Nodes/Removals.antt =====
-- A snapshot is deleted on the node with one volume: the snapshot is what that volume is.
use csi_hostpath.Base.{
  ◌≡◌, refl, [], ◌∷◌, false, none, Text, text, ok, ◌==◌, list_eq, nat_eq, list_beq, if◌then◌else◌,
  replace_first,
}
use csi_hostpath.Base.Dict.{lookup}
use csi_hostpath.FileSystem.{Files, quiet, IsName, components}
use csi_hostpath.Client.Listing.{IsGroup, view}
use csi_hostpath.Client.Remote.{Nodes, worker_connection}
use csi_hostpath.Cluster.{
  get_node_addr, get_node_ip, address_of, get_vg_name_from_csi_pv, get_node_name_from_csi_pv,
  get_volume_snapshot_content,
}
use csi_hostpath.Controller.{get_node_conn, new_grpc_connection}
use csi_hostpath.Controller.Snapshots.{delete_snapshot}
use csi_hostpath.Controller.Groups.{delete_volume_group_snapshot}
use csi_hostpath.Controller.Groups.Removal.{delete_all, delete_volume_group_snapshot-delete_all}
use csi_hostpath.Controller.Nodes.{IsPlaced}
use csi_hostpath.Controller.Nodes.Groups.{
  AreMembers, is_among, delete_volume_group_snapshot_removed,
}
use csi_hostpath.Controller.Nodes.Removals.{delete_snapshot_removed}
use csi_hostpath.Tests.Memory.{cluster, some_pv}
use csi_hostpath.Tests.Plain.{plain}
use csi_hostpath.Tests.Nodes.{pool, pvc, addr, tree, served, pvc-IsName, tree-IsGroup}

abbrev source : Text
unfolding text
source = text "pv"

source-IsPlaced : IsPlaced cluster Nodes source
unfolding get_node_conn new_grpc_connection get_node_addr get_node_ip address_of
    get_node_name_from_csi_pv get_vg_name_from_csi_pv lookup text list_beq
source-IsPlaced = record {
  pv = some_pv;
  addr = addr;
  known = refl;
  has_node = refl;
  has_group = refl;
  reached = λ t. refl;
}

delete_snapshot_removed_example :
    (d' : Files) × (nodes : Nodes) × (delete_snapshot cluster (worker_connection plain) pvc served
      ≡ (ok tt, (nodes, 3)))
    × (nodes addr ≡ quiet d')
    × ((a : Text) → (addr == a) ≡ false → nodes a ≡ quiet tree)
    × IsGroup plain pool d'
    × ((x : Text) → view plain pool d' x ≡ (if pvc == x then none else view plain pool tree x))
unfolding text list_beq lookup get_vg_name_from_csi_pv source-IsPlaced get_volume_snapshot_content
    replace_first
delete_snapshot_removed_example =
    delete_snapshot_removed cluster plain pvc source source-IsPlaced served tree refl refl refl
      pvc-IsName tree-IsGroup

delete_volume_group_snapshot-delete_all_example :
    delete_volume_group_snapshot cluster (worker_connection plain) (pvc ∷ (source ∷ [])) served
    ≡ delete_all cluster (worker_connection plain) (pvc ∷ (source ∷ [])) served
unfolding text list_beq
delete_volume_group_snapshot-delete_all_example =
    delete_volume_group_snapshot-delete_all cluster (worker_connection plain) (pvc ∷ (source ∷ []))
      served (refl, (refl, tt))

source-IsName : IsName source
unfolding list_beq components source text
source-IsName = (refl, refl)

-- The first is there, the second is not.
members : AreMembers cluster pool addr (pvc ∷ (source ∷ []))
unfolding text list_beq lookup get_vg_name_from_csi_pv source-IsPlaced get_volume_snapshot_content
    replace_first pool addr
members = (
  record {
    source = source;
    placed = source-IsPlaced;
    at = refl;
    within = refl;
    named = refl;
    known = refl;
    plain = pvc-IsName;
  },
  (
    record {
      source = source;
      placed = source-IsPlaced;
      at = refl;
      within = refl;
      named = refl;
      known = refl;
      plain = source-IsName;
    },
    tt,
  ),
)

delete_volume_group_snapshot_removed_example :
    (d' : Files) × (nodes : Nodes) × (delete_volume_group_snapshot cluster
        (worker_connection plain)
        (pvc ∷ (source ∷ []))
        served
      ≡ (ok tt, (nodes, 3)))
    × (nodes addr ≡ quiet d')
    × ((a : Text) → (addr == a) ≡ false → nodes a ≡ quiet tree)
    × IsGroup plain pool d'
    × ((x : Text)
        → view plain pool d' x
          ≡ (if is_among (pvc ∷ (source ∷ [])) x then none else view plain pool tree x))
delete_volume_group_snapshot_removed_example =
    delete_volume_group_snapshot_removed cluster plain pool addr (pvc ∷ (source ∷ [])) served tree
      members refl tree-IsGroup
