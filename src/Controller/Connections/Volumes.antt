-- ===== src/Controller/Connections/Volumes.antt =====
-- The handlers of the volumes close what they open.
use csi_hostpath.Base.{
  Option, none, some, [], true, Text, Outcome, ok, err, panic, pure, to_lower, not, ◌||◌, ◌==◌,
  list_eq, nat_eq,
}
use csi_hostpath.Base.Dict.{lookup}
use csi_hostpath.Base.Int.{to_uint64}
use csi_hostpath.Volume.{LogicalVolume}
use csi_hostpath.Cluster.{Cluster, get_vg_name_from_csi_pv, get_node_name_from_csi_pv}
use csi_hostpath.Client.{Connection, VolOptions}
use csi_hostpath.Controller.{invalid_argument, internal, unimplemented}
use csi_hostpath.Controller.Capacity.{get_rounded_capacity}
use csi_hostpath.Controller.Requests.{
  CreateVolumeRequest, ControllerExpandVolumeRequest, validate_volume_create_req,
  validate_delete_volume_req, new_volume_params,
}
use csi_hostpath.Controller.Volumes.{
  ensure_volume, create_volume, delete_volume, delete_found, controller_expand_volume, is_gone,
  anno_selected_node, create_options, create_volume_response,
}
use csi_hostpath.Controller.Groups.{}
use csi_hostpath.Controller.Connections.{
  Balanced, Balanced-bind, Balanced-call, Balanced-check, Balanced-conn, Balanced-fail,
  Balanced-guard, Balanced-if, Balanced-map_err, Balanced-option, Balanced-or_fail,
  Balanced-outcome, Balanced-pure, Balanced-then, Closing-closing,
}

module _ (K : Cluster) (conn : Connection) where
  pub ensure_volume-Balanced : (addr : Text) (o : VolOptions) → Balanced (ensure_volume conn addr o)
  unfolding ensure_volume
  ensure_volume-Balanced addr o =
      Balanced-bind _ _ (Balanced-call (conn.get_volume addr o.volume_group o.name)) (λ v.
        Balanced-option v _ (λ _. pure tt)
          (Balanced-then _ _ (Balanced-call (conn.create_volume addr o)) (Balanced-pure tt))
          (λ _. Balanced-pure tt))

  pub create_volume-Balanced : (req : CreateVolumeRequest) → Balanced (create_volume K conn req)
  unfolding create_volume
  create_volume-Balanced req =
      let params = new_volume_params req.parameters in
      Balanced-then _ _
        (Balanced-map_err (λ _. invalid_argument) _
          (Balanced-check (validate_volume_create_req req)))
        (Balanced-then _ _
          (Balanced-guard (not (params.pvc_name == [] || params.pvc_namespace == []))
            invalid_argument)
          (Balanced-bind _ _
            (Balanced-or_fail (K.claim_annotations params.pvc_namespace params.pvc_name) internal)
            (λ annotations.
              Balanced-bind _ _
                (Balanced-or_fail (lookup anno_selected_node annotations) unimplemented)
                (λ node_name. Balanced-conn K node_name _ (λ addr. Closing-closing _ (
                  Balanced-then _ _ (ensure_volume-Balanced addr (create_options req))
                    (Balanced-pure (create_volume_response req node_name))))))))

  pub delete_found-Balanced :
      (addr vg_name volume_id : Text) (r : Outcome Text (Option LogicalVolume))
      → Balanced (delete_found conn addr vg_name volume_id r)
  unfolding delete_found
  delete_found-Balanced addr vg_name volume_id (ok (some _)) = Balanced-call _
  delete_found-Balanced addr vg_name volume_id (ok none) = Balanced-pure tt
  delete_found-Balanced addr vg_name volume_id (err e) =
      Balanced-if (is_gone vg_name e) _ _ (Balanced-pure tt) (Balanced-fail internal)
  delete_found-Balanced addr vg_name volume_id panic = Balanced-fail internal

  pub delete_volume-Balanced : (volume_id : Text) → Balanced (delete_volume K conn volume_id)
  unfolding delete_volume
  delete_volume-Balanced volume_id =
      let id = to_lower volume_id in
      Balanced-then _ _ (Balanced-check (validate_delete_volume_req volume_id)) (
        Balanced-bind _ _ (Balanced-or_fail (K.persistent_volume id) internal) (λ pv.
          let vg_name = get_vg_name_from_csi_pv pv in
          Balanced-then _ _ (Balanced-guard (not (get_node_name_from_csi_pv pv == [])) internal) (
            Balanced-conn K (get_node_name_from_csi_pv pv) _ (λ addr. Closing-closing _ (
              Balanced-if (vg_name == []) _ _ (Balanced-pure tt) (
                Balanced-bind _ _ (Balanced-outcome (conn.get_volume addr vg_name id))
                  (delete_found-Balanced addr vg_name id)))))))

  pub controller_expand_volume-Balanced :
      (req : ControllerExpandVolumeRequest) → Balanced (controller_expand_volume K conn req)
  unfolding controller_expand_volume
  controller_expand_volume-Balanced req =
      let size = get_rounded_capacity req.required_bytes in
      Balanced-bind _ _ (Balanced-or_fail (K.persistent_volume req.volume_id) internal) (λ pv.
        let vg_name = get_vg_name_from_csi_pv pv in
        Balanced-then _ _ (Balanced-guard (not (vg_name == [])) internal) (
          Balanced-then _ _ (Balanced-guard (not (get_node_name_from_csi_pv pv == [])) internal) (
            Balanced-conn K (get_node_name_from_csi_pv pv) _ (λ addr. Closing-closing _ (
              Balanced-then _ _
                (Balanced-call (conn.expand_volume addr vg_name req.volume_id (to_uint64 size)))
                (Balanced-pure
                  (record { capacity_bytes = size; node_expansion_required = true })))))))
