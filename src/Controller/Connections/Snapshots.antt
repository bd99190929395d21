-- ===== src/Controller/Connections/Snapshots.antt =====
-- The handlers of the snapshots close what they open.
use csi_hostpath.Base.{[], Text, pure, not, ◌==◌, list_eq, nat_eq}
use csi_hostpath.Base.Int.{pos}
use csi_hostpath.Cluster.{
  Cluster, get_vg_name_from_csi_pv, get_node_name_from_csi_pv, get_volume_snapshot_content,
}
use csi_hostpath.Client.{Connection}
use csi_hostpath.Controller.{invalid_argument, internal}
use csi_hostpath.Controller.Requests.{CreateSnapshotRequest, validate_snapshot_request}
use csi_hostpath.Controller.Volumes.{}
use csi_hostpath.Controller.Snapshots.{create_snapshot, delete_snapshot, snapshot_of}
use csi_hostpath.Controller.Groups.{}
use csi_hostpath.Controller.Connections.{
  Balanced, Balanced-bind, Balanced-call, Balanced-check, Balanced-conn, Balanced-dereference,
  Balanced-guard, Balanced-option, Balanced-or_fail, Balanced-pure, Balanced-then, Closing-closing,
}

module _ (K : Cluster) (conn : Connection) where
  pub create_snapshot-Balanced :
      (req : CreateSnapshotRequest) → Balanced (create_snapshot K conn req)
  unfolding create_snapshot
  create_snapshot-Balanced req =
      Balanced-then _ _ (Balanced-check (validate_snapshot_request req)) (
        Balanced-then _ _ (Balanced-guard (not (req.name == [])) invalid_argument) (
          Balanced-then _ _ (Balanced-guard (not (req.source_volume_id == [])) invalid_argument) (
            Balanced-bind _ _ (Balanced-or_fail (K.persistent_volume req.source_volume_id) internal)
              (λ pv.
                let vg_name = get_vg_name_from_csi_pv pv in
                Balanced-then _ _ (Balanced-guard (not (vg_name == [])) internal) (
                  Balanced-then _ _
                    (Balanced-guard (not (get_node_name_from_csi_pv pv == [])) internal)
                    (Balanced-conn K (get_node_name_from_csi_pv pv) _ (λ addr. Closing-closing _ (
                      Balanced-bind _ _ (Balanced-call (conn.get_volume addr vg_name req.name))
                        (λ v.
                          Balanced-bind _ _
                            (Balanced-option v _ (λ _. pure (pos 0))
                              (Balanced-call
                                (conn.create_snapshot addr vg_name req.name req.source_volume_id))
                              (λ _. Balanced-pure (pos 0)))
                            (λ size. Balanced-pure (snapshot_of K req size)))))))))))

  pub delete_snapshot-Balanced : (id : Text) → Balanced (delete_snapshot K conn id)
  unfolding delete_snapshot
  delete_snapshot-Balanced id =
      Balanced-then _ _ (Balanced-guard (not (id == [])) invalid_argument) (
        Balanced-bind _ _ (Balanced-or_fail (get_volume_snapshot_content K id) internal) (λ handle.
          Balanced-bind _ _ (Balanced-dereference handle) (λ src.
            Balanced-bind _ _ (Balanced-or_fail (K.persistent_volume src) internal) (λ pv.
              let vg_name = get_vg_name_from_csi_pv pv in
              Balanced-then _ _ (Balanced-guard (not (vg_name == [])) internal) (
                Balanced-then _ _
                  (Balanced-guard (not (get_node_name_from_csi_pv pv == [])) internal)
                  (Balanced-conn K (get_node_name_from_csi_pv pv) _ (λ addr. Closing-closing _ (
                    Balanced-bind _ _ (Balanced-call (conn.get_volume addr vg_name id)) (λ v.
                      Balanced-option v (pure tt) _ (Balanced-pure tt)
                        (λ _. Balanced-call (conn.delete_snapshot addr vg_name id)))))))))))
