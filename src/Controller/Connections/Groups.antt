-- ===== src/Controller/Connections/Groups.antt =====
-- The handlers of the groups of snapshots close what they open.
use csi_hostpath.Base.{
  refl, Option, none, some, List, [], ◌∷◌, ◌++◌, ◌&&◌, true, false, Text, text, Outcome, ok, err,
  panic, not, ◌==◌, list_eq, nat_eq,
}
use csi_hostpath.Base.Int.{pos, ℤ}
use csi_hostpath.Volume.{LogicalVolume}
use csi_hostpath.Cluster.{
  Cluster, PersistentVolume, get_vg_name_from_csi_pv, get_node_name_from_csi_pv,
  get_volume_snapshot_content,
}
use csi_hostpath.Client.{Connection}
use csi_hostpath.Controller.{internal}
use csi_hostpath.Controller.Requests.{CreateVolumeGroupSnapshotRequest}
use csi_hostpath.Controller.Volumes.{}
use csi_hostpath.Controller.Groups.{
  taken, size_made, member_found, member_deleted, snapshot_connected, snapshot_found,
  snapshot_missing, snapshot_over, snapshot_volume, snapshot_all, create_volume_group_snapshot,
  delete_member, delete_volume_group_snapshot,
}
use csi_hostpath.Controller.Connections.{
  Balanced, Closing, Balanced-bind, Balanced-conn, Balanced-dereference, Balanced-guard,
  Balanced-if, Balanced-or_fail, Balanced-outcome, Balanced-outcome_conn, Balanced-pure,
  Balanced-then, Closing-closing, Closing-outcome,
}

size_made-Balanced : {S : Type 0} (r : Outcome Text ℤ) → Balanced {S = S} (size_made r)
size_made-Balanced (ok n) = Balanced-pure (n, true)
size_made-Balanced (err e) = Balanced-pure (pos 0, false)
size_made-Balanced panic = Balanced-pure (pos 0, false)

module _ (K : Cluster) (conn : Connection) where
  snapshot_missing-Balanced :
      (addr vg_name snap vol : Text) (r : Outcome Text (Option LogicalVolume))
      → Balanced (snapshot_missing conn addr vg_name snap vol r)
  snapshot_missing-Balanced addr vg_name snap vol (ok none) =
      Balanced-bind _ _ (Balanced-outcome (conn.create_snapshot addr vg_name snap vol))
        size_made-Balanced
  snapshot_missing-Balanced addr vg_name snap vol (ok (some _)) = Balanced-pure _
  snapshot_missing-Balanced addr vg_name snap vol (err _) = Balanced-pure _
  snapshot_missing-Balanced addr vg_name snap vol panic = Balanced-pure _

  snapshot_over-Balanced :
      (group vol addr vg_name snap : Text)
      → Balanced (snapshot_over conn K group vol addr vg_name snap)
  unfolding snapshot_over
  snapshot_over-Balanced group vol addr vg_name snap =
      Balanced-bind _ _ (Balanced-outcome (conn.get_volume addr vg_name snap)) (λ r.
        Balanced-bind _ _ (snapshot_missing-Balanced addr vg_name snap vol r)
          (λ made. Balanced-pure (taken K group vol snap made.0, made.1)))

  snapshot_connected-Closing :
      (group vol vg_name snap addr : Text)
      → Closing (snapshot_connected K conn group vol vg_name snap (ok addr))
  unfolding snapshot_connected
  snapshot_connected-Closing group vol vg_name snap addr =
      Closing-closing _ (snapshot_over-Balanced group vol addr vg_name snap)

  snapshot_found-Balanced :
      (group vol : Text) (o : Option PersistentVolume)
      → Balanced (snapshot_found K conn group vol o)
  unfolding snapshot_found snapshot_connected
  snapshot_found-Balanced group vol none = Balanced-pure ([], false)
  snapshot_found-Balanced group vol (some pv) =
      let vg_name = get_vg_name_from_csi_pv pv in
      let snap = group ++ text "-" ++ pv.name in
      Balanced-if (vg_name == []) _ _ (Balanced-pure ([], false)) (
        Balanced-if (get_node_name_from_csi_pv pv == []) _ _ (Balanced-pure ([], false)) (
          Balanced-outcome_conn K (get_node_name_from_csi_pv pv)
            (snapshot_connected K conn group vol vg_name snap)
            (snapshot_connected-Closing group vol vg_name snap) (λ e. Balanced-pure ([], false))))

  snapshot_all-Balanced :
      (group : Text) (vols : List Text) → Balanced (snapshot_all K conn group vols)
  unfolding snapshot_all snapshot_volume
  snapshot_all-Balanced group [] = Balanced-pure ([], true)
  snapshot_all-Balanced group (vol ∷ vols) =
      Balanced-bind _ _ (snapshot_found-Balanced group vol (K.persistent_volume vol)) (λ r.
        Balanced-bind _ _ (snapshot_all-Balanced group vols)
          (λ rest. Balanced-pure (r.0 ++ rest.0, r.1 && rest.1)))

  pub create_volume_group_snapshot-Balanced :
      (req : CreateVolumeGroupSnapshotRequest) → Balanced (create_volume_group_snapshot K conn req)
  unfolding create_volume_group_snapshot
  create_volume_group_snapshot-Balanced req =
      Balanced-bind _ _ (snapshot_all-Balanced req.name req.source_volume_ids) (λ r.
        Balanced-pure (record {
          group_snapshot_id = req.name;
          snapshots = r.0;
          creation_time = K.now;
          ready_to_use = r.1;
        }))

  member_deleted-Closing :
      (r : Outcome Text (Unit {0})) → Closing {S = conn.State} (member_deleted r)
  member_deleted-Closing (ok _) = record { at = λ s. refl }
  member_deleted-Closing (err e) = record { at = λ s. refl }
  member_deleted-Closing panic = record { at = λ s. refl }

  member_found-Closing :
      (addr vg_name id : Text) (r : Outcome Text (Option LogicalVolume))
      → Closing (member_found conn addr vg_name id r)
  member_found-Closing addr vg_name id (ok none) = record { at = λ s. refl }
  member_found-Closing addr vg_name id (ok (some _)) =
      Closing-outcome (conn.delete_snapshot addr vg_name id) member_deleted member_deleted-Closing
  member_found-Closing addr vg_name id (err e) = record { at = λ s. refl }
  member_found-Closing addr vg_name id panic = record { at = λ s. refl }

  delete_member-Balanced : (id : Text) → Balanced (delete_member K conn id)
  unfolding delete_member
  delete_member-Balanced id =
      Balanced-bind _ _ (Balanced-or_fail (get_volume_snapshot_content K id) internal) (λ handle.
        Balanced-bind _ _ (Balanced-dereference handle) (λ src.
          Balanced-bind _ _ (Balanced-or_fail (K.persistent_volume src) internal) (λ pv.
            let vg_name = get_vg_name_from_csi_pv pv in
            Balanced-then _ _ (Balanced-guard (not (vg_name == [])) internal) (
              Balanced-then _ _ (Balanced-guard (not (get_node_name_from_csi_pv pv == [])) internal)
                (Balanced-conn K (get_node_name_from_csi_pv pv) _ (λ addr.
                  Closing-outcome (conn.get_volume addr vg_name id) _
                    (member_found-Closing addr vg_name id)))))))

  pub delete_volume_group_snapshot-Balanced :
      (ids : List Text) → Balanced (delete_volume_group_snapshot K conn ids)
  unfolding delete_volume_group_snapshot
  delete_volume_group_snapshot-Balanced [] = Balanced-pure tt
  delete_volume_group_snapshot-Balanced (id ∷ ids) =
      Balanced-then _ _ (delete_member-Balanced id) (delete_volume_group_snapshot-Balanced ids)
