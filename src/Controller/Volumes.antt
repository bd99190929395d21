-- ===== src/Controller/Volumes.antt =====
-- pkg/driver/controller.go: `CreateVolume`, `DeleteVolume` and `ControllerExpandVolume`.
use csi_hostpath.Base.{
  Option, none, some, [], ◌∷◌, ◌++◌, Bool, true, not, ◌||◌, Text, text, nat_eq, list_eq, ◌==◌,
  if◌then◌else◌, to_lower, contains, ok, err, panic, Exec, pure, fail, guard, or_fail, map_err,
  attempt, ◌>>=◌, ◌>>◌, Outcome,
}
use csi_hostpath.Base.Int.{to_uint64}
use csi_hostpath.Base.Dict.{Dict, lookup, insert}
use csi_hostpath.Cluster.{
  Cluster, get_node_name_from_csi_pv, get_vg_name_from_csi_pv, vg_name_key,
  kubernetes_node_identity_key,
}
use csi_hostpath.Volume.{LogicalVolume}
use csi_hostpath.Client.{Connection, VolOptions, no_options}
use csi_hostpath.Controller.{
  Code, invalid_argument, internal, unimplemented, Session, or_internal, check, call, closing,
  get_node_conn,
}
use csi_hostpath.Controller.Capacity.{get_rounded_capacity}
use csi_hostpath.Controller.Requests.{
  CreateVolumeRequest, CreateVolumeResponse, ControllerExpandVolumeRequest,
  ControllerExpandVolumeResponse, no_source, from_snapshot, from_volume, new_volume_params,
  validate_volume_create_req, validate_delete_volume_req,
}

abbrev pub anno_selected_node : Text
unfolding text
anno_selected_node = text "volume.kubernetes.io/selected-node"

-- The options of the three branches of `CreateVolume`
unfoldable pub create_options : CreateVolumeRequest → VolOptions
unfolding new_volume_params to_lower to_uint64 get_rounded_capacity
create_options req =
    let options = record no_options {
      name = to_lower req.name;
      volume_group = (new_volume_params req.parameters).host_path;
      size = to_uint64 (get_rounded_capacity req.required_bytes);
    } in
    elim req.volume_content_source [
      | some (from_snapshot id) ↦ record options { snapshot_name = id }
      | some (from_volume id) ↦ record options { clone_name = id }
      | some no_source ↦ options
      | none ↦ options
    ]

-- `for key, value := range parameters { cntx[key] = value }`
unfoldable pub add_all : Dict Text Text → Dict Text Text → Dict Text Text
unfolding insert
add_all [] cntx = cntx
add_all ((key, value) ∷ parameters) cntx = add_all parameters (insert key value cntx)

unfoldable pub create_volume_response : CreateVolumeRequest → Text → CreateVolumeResponse
unfolding add_all to_lower get_rounded_capacity new_volume_params
create_volume_response req node_name = record {
  volume_id = to_lower req.name;
  capacity_bytes = get_rounded_capacity req.required_bytes;
  volume_context = add_all req.parameters (
      (anno_selected_node, node_name)
      ∷ (vg_name_key, (new_volume_params req.parameters).host_path)
      ∷ []);
  content_source = req.volume_content_source;
  accessible_topology = (kubernetes_node_identity_key, node_name) ∷ [];
}

-- The errors that `DeleteVolume` takes for a volume that is gone
unfoldable pub is_gone : Text → Text → Bool
unfolding contains text
is_gone vg_name e =
    contains (text "Failed to find logical volume") e
    || contains (text "Volume group \"" ++ vg_name ++ text "\" not found") e

unfoldable pub delete_found :
    (conn : Connection)
    → Text
    → Text
    → Text
    → Outcome Text (Option LogicalVolume)
    → Exec (Session conn.State) Code (Unit {0})
unfolding is_gone
delete_found conn addr vg_name volume_id (err e) =
    if is_gone vg_name e then pure tt else fail internal
delete_found conn addr vg_name volume_id (ok (some _)) =
    or_internal (call (conn.delete_volume addr vg_name volume_id))
delete_found conn addr vg_name volume_id (ok none) = pure tt
delete_found conn addr vg_name volume_id panic = fail internal

-- What each branch of `CreateVolume` does with its options
unfoldable pub ensure_volume :
    (conn : Connection) → Text → VolOptions → Exec (Session conn.State) Code (Unit {0})
ensure_volume conn addr options = do
  vol_obj ← or_internal (call (conn.get_volume addr options.volume_group options.name))
  elim vol_obj [
    | none ↦ or_internal (call (conn.create_volume addr options)) >> pure tt
    | some _ ↦ pure tt
  ]

module _ (K : Cluster) (conn : Connection) where
  unfoldable pub create_volume :
      CreateVolumeRequest → Exec (Session conn.State) Code CreateVolumeResponse
  unfolding create_options create_volume_response ensure_volume get_node_conn new_volume_params
      validate_volume_create_req lookup
  create_volume req =
      let params = new_volume_params req.parameters in
      do
        map_err (λ _. invalid_argument) (check (validate_volume_create_req req))
        guard (not (params.pvc_name == [] || params.pvc_namespace == [])) invalid_argument
        annotations ← or_fail (K.claim_annotations params.pvc_namespace params.pvc_name) internal
        node_name ← or_fail (lookup anno_selected_node annotations) unimplemented
        addr ← or_internal (get_node_conn K node_name)
        closing (do
          ensure_volume conn addr (create_options req)
          pure (create_volume_response req node_name))

  unfoldable pub delete_volume : Text → Exec (Session conn.State) Code (Unit {0})
  unfolding delete_found get_node_conn get_node_name_from_csi_pv get_vg_name_from_csi_pv to_lower
      validate_delete_volume_req
  delete_volume req_volume_id =
      let volume_id = to_lower req_volume_id in
      do
        check (validate_delete_volume_req req_volume_id)
        pv ← or_fail (K.persistent_volume volume_id) internal
        let node_name = get_node_name_from_csi_pv pv
        guard (not (node_name == [])) internal
        addr ← or_internal (get_node_conn K node_name)
        closing (
            let vg_name = get_vg_name_from_csi_pv pv in
            if vg_name == [] then pure tt else (do
              found ← or_internal (attempt (call (conn.get_volume addr vg_name volume_id)))
              delete_found conn addr vg_name volume_id found))

  unfoldable pub controller_expand_volume :
      ControllerExpandVolumeRequest → Exec (Session conn.State) Code ControllerExpandVolumeResponse
  unfolding get_node_conn get_node_name_from_csi_pv get_vg_name_from_csi_pv to_uint64
      get_rounded_capacity
  controller_expand_volume req = do
    pv ← or_fail (K.persistent_volume req.volume_id) internal
    let vg_name = get_vg_name_from_csi_pv pv
    guard (not (vg_name == [])) internal
    let vol_size_bytes = get_rounded_capacity req.required_bytes
    let node_name = get_node_name_from_csi_pv pv
    guard (not (node_name == [])) internal
    addr ← or_internal (get_node_conn K node_name)
    closing (do
      or_internal (call (conn.expand_volume addr vg_name req.volume_id (to_uint64 vol_size_bytes)))
      pure (record { capacity_bytes = vol_size_bytes; node_expansion_required = true }))
