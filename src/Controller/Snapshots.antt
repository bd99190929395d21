-- ===== src/Controller/Snapshots.antt =====
-- pkg/driver/controller.go: `CreateSnapshot` and `DeleteSnapshot`.
use csi_hostpath.Base.{
  Option, none, some, [], true, not, Text, nat_eq, list_eq, ◌==◌, Exec, pure, crash, guard, or_fail,
  ◌>>=◌, ◌>>◌,
}
use csi_hostpath.Base.Int.{ℤ, pos}
use csi_hostpath.Cluster.{
  Cluster, get_node_name_from_csi_pv, get_vg_name_from_csi_pv, get_volume_snapshot_content,
}
use csi_hostpath.Client.{Connection}
use csi_hostpath.Controller.{
  Code, invalid_argument, internal, Session, or_internal, check, call, closing, get_node_conn,
}
use csi_hostpath.Controller.Requests.{CreateSnapshotRequest, Snapshot, validate_snapshot_request}

-- What a pointer points to, `*snapContent.Spec.Source.VolumeHandle` for one
abbrev pub dereference : {S A : Type 0} → Option A → Exec S Code A
dereference none = crash
dereference (some t) = pure t

-- The response of `CreateSnapshot`
abbrev pub snapshot_of : Cluster → CreateSnapshotRequest → ℤ → Snapshot
snapshot_of K req size_bytes = record {
  size_bytes = size_bytes;
  snapshot_id = req.name;
  source_volume_id = req.source_volume_id;
  creation_time = some K.now;
  ready_to_use = true;
  group_snapshot_id = [];
}

module _ (K : Cluster) (conn : Connection) where
  -- `sizeBytes` is 0 until a snapshot is made.
  unfoldable pub create_snapshot : CreateSnapshotRequest → Exec (Session conn.State) Code Snapshot
  unfolding get_node_conn get_node_name_from_csi_pv get_vg_name_from_csi_pv
      validate_snapshot_request
  create_snapshot req = do
    check (validate_snapshot_request req)
    let snapshot_name = req.name
    guard (not (snapshot_name == [])) invalid_argument
    let src_volume_id = req.source_volume_id
    guard (not (src_volume_id == [])) invalid_argument
    src_pv ← or_fail (K.persistent_volume src_volume_id) internal
    let vg_name = get_vg_name_from_csi_pv src_pv
    guard (not (vg_name == [])) internal
    let node_name = get_node_name_from_csi_pv src_pv
    guard (not (node_name == [])) internal
    addr ← or_internal (get_node_conn K node_name)
    closing (do
      vol_obj ← or_internal (call (conn.get_volume addr vg_name snapshot_name))
      size_bytes ← elim vol_obj [
        | none ↦ or_internal (call (conn.create_snapshot addr vg_name snapshot_name src_volume_id))
        | some _ ↦ pure (pos 0)
      ]
      pure (snapshot_of K req size_bytes))

  unfoldable pub delete_snapshot : Text → Exec (Session conn.State) Code (Unit {0})
  unfolding get_node_conn get_node_name_from_csi_pv get_vg_name_from_csi_pv
      get_volume_snapshot_content
  delete_snapshot snapshot_id = do
    guard (not (snapshot_id == [])) invalid_argument
    handle ← or_fail (get_volume_snapshot_content K snapshot_id) internal
    src_volume_id ← dereference handle
    pv ← or_fail (K.persistent_volume src_volume_id) internal
    let vg_name = get_vg_name_from_csi_pv pv
    guard (not (vg_name == [])) internal
    let node_name = get_node_name_from_csi_pv pv
    guard (not (node_name == [])) internal
    addr ← or_internal (get_node_conn K node_name)
    closing (do
      vol_obj ← or_internal (call (conn.get_volume addr vg_name snapshot_id))
      elim vol_obj [
        | some _ ↦ or_internal (call (conn.delete_snapshot addr vg_name snapshot_id))
        | none ↦ pure tt
      ])
