-- ===== src/Controller/Lists.antt =====
-- pkg/driver/controller.go: the handlers that only read, `ListVolumes`, `ListSnapshots`,
-- `ControllerGetVolume` and `ValidateVolumeCapabilities`, and those that answer with a constant.
pub mod Opened
pub mod Counted
pub mod Entries
pub mod Wanted
use csi_hostpath.Base.{
  ℕ, Option, none, some, List, [], ◌∷◌, Bool, true, false, not, ◌&&◌, Text, text, nat_eq, list_eq,
  ◌==◌, Outcome, ok, err, panic, Exec, pure, guard, or_fail, crash, ◌>>=◌, ◌>>◌, to_lower,
  if◌then◌else◌,
}
use csi_hostpath.Base.Int.{ℤ, pos, to_int64}
use csi_hostpath.Base.Dict.{Dict, insert}
use csi_hostpath.Volume.{LogicalVolume}
use csi_hostpath.Cluster.{
  Cluster, PersistentVolume, VolumeSnapshotContent, CsiSource, get_node_name_from_csi_pv,
  get_vg_name_from_csi_pv, local_provider, vg_name_key,
}
use csi_hostpath.Client.{Connection}
use csi_hostpath.Controller.{
  Code, invalid_argument, internal, unknown, Session, or_internal, call, close, get_node_conn,
}
use csi_hostpath.Controller.Requests.{
  Snapshot, VolumeCapability, at, is_valid_volume_capabilities, new_controller_capabilities,
}
use csi_hostpath.Controller.Snapshots.{dereference}
use csi_hostpath.Controller.Groups.{outcome}

-- A volume with its condition, of `ListVolumesResponse` and `ControllerGetVolumeResponse`
pub record VolumeEntry : Type 0 where
  pub volume_id : Text
  pub capacity_bytes : ℤ
  pub abnormal : Bool
  pub message : Text

-- The loop that makes a map of those objects that are wanted, by their names
unfoldable pub collect : {A : Type 0} → (A → Bool) → (A → Text) → Dict Text A → List A → Dict Text A
unfolding insert
collect is_wanted name found [] = found
collect is_wanted name found (a ∷ rest) =
    collect is_wanted name (if is_wanted a then insert (name a) a found else found) rest

-- The guards of `getAllPVsOfLocalCSI`
unfoldable pub is_local_volume : PersistentVolume → Bool
unfolding text
is_local_volume pv = elim pv.csi [
  | none ↦ false
  | some source ↦ source.driver == local_provider && pv.phase == text "Bound"
]

-- `getAllPVsOfLocalCSI`
unfoldable pub get_all_pvs_of_local_csi : Cluster → Option (Dict Text PersistentVolume)
unfolding collect is_local_volume
get_all_pvs_of_local_csi K =
    if K.has_client
    then (elim K.persistent_volumes [
      | none ↦ none
      | some pvs ↦ some (collect is_local_volume (λ pv. pv.name) [] pvs)
    ])
    else none

-- The guards of `getAllSnapshotContentOfLocalCSI`
unfoldable pub is_local_content : VolumeSnapshotContent → Bool
is_local_content content = content.driver == local_provider && not (content.snapshot_ref_name == [])

-- `getAllSnapshotContentOfLocalCSI`: it has no error.
unfoldable pub get_all_snapshot_content_of_local_csi : Cluster → Dict Text VolumeSnapshotContent
unfolding collect is_local_content
get_all_snapshot_content_of_local_csi K = elim K.snapshot_contents [
  | none ↦ []
  | some contents ↦ collect is_local_content (λ content. content.name) [] contents
]

abbrev pub status_ok : Text
unfolding text
status_ok = text "ok"

-- The entry of a volume that the node has
unfoldable pub volume_entry : PersistentVolume → CsiSource → LogicalVolume → VolumeEntry
unfolding text
volume_entry pv source vol_obj = record {
  volume_id = source.volume_handle;
  capacity_bytes = to_int64 pv.encoded_size;
  abnormal = not (vol_obj.status == status_ok);
  message = if vol_obj.status == status_ok then [] else text "volume lost";
}

-- The entry of a snapshot that the node has
unfoldable pub snapshot_entry : Text → Text → LogicalVolume → Snapshot
snapshot_entry snap_name lv_name vol = record {
  size_bytes = to_int64 vol.size;
  snapshot_id = snap_name;
  source_volume_id = lv_name;
  creation_time = none;
  ready_to_use = vol.status == status_ok;
  group_snapshot_id = [];
}

abbrev pub with_entry : {A : Type 0} → Option A → List A → List A
with_entry none entries = entries
with_entry (some e) entries = e ∷ entries

-- A loop whose rounds add an entry or none
unfoldable pub each :
    {S A B : Type 0} → (A → Exec S Code (Option B)) → List A → Exec S Code (List B)
each f [] = pure []
each f (a ∷ rest) = do e ← f a; entries ← each f rest; pure (with_entry e entries)

module _ (conn : Connection) where
  -- Behind `GetVolume`: an error leaves the connection open.
  unfoldable pub snapshot_read :
      Text
      → Text
      → Outcome Text (Option LogicalVolume)
      → Exec (Session conn.State) Code (Option Snapshot)
  unfolding snapshot_entry
  snapshot_read snap_name lv_name (ok found) = do
    close
    vol ← dereference found
    pure (some (snapshot_entry snap_name lv_name vol))
  snapshot_read snap_name lv_name (err _) = pure none
  snapshot_read snap_name lv_name panic = crash

  -- Behind `getNodeConn`
  unfoldable pub snapshot_dialled :
      Text → Text → Text → Outcome Text Text → Exec (Session conn.State) Code (Option Snapshot)
  unfolding snapshot_read
  snapshot_dialled vg_name snap_name lv_name (ok addr) = do
    found ← outcome (call (conn.get_volume addr vg_name snap_name))
    snapshot_read snap_name lv_name found
  snapshot_dialled vg_name snap_name lv_name (err _) = pure none
  snapshot_dialled vg_name snap_name lv_name panic = crash

module _ (K : Cluster) (conn : Connection) where
  -- A round of `ListVolumes`: an error of `GetVolume` leaves the connection open, and a volume that the
  -- node does not have is nil.
  unfoldable pub list_volume :
      PersistentVolume → Exec (Session conn.State) Code (Option VolumeEntry)
  unfolding get_node_conn get_node_name_from_csi_pv get_vg_name_from_csi_pv volume_entry
  list_volume pv =
      let vg_name = get_vg_name_from_csi_pv pv in
      let node_name = get_node_name_from_csi_pv pv in
      if vg_name == [] then pure none else (do
        guard (not (node_name == [])) internal
        addr ← or_internal (get_node_conn K node_name)
        found ← or_internal (call (conn.get_volume addr vg_name pv.name))
        close
        vol_obj ← dereference found
        source ← dereference pv.csi
        pure (some (volume_entry pv source vol_obj)))

  unfoldable pub list_volumes : Exec (Session conn.State) Code (List VolumeEntry)
  unfolding list_volume get_all_pvs_of_local_csi each
  list_volumes = do
    pvs_info ← or_fail (get_all_pvs_of_local_csi K) internal
    each list_volume (K.range_volumes pvs_info)

  -- Behind the lookup of the source
  unfoldable pub snapshot_source :
      Text → Text → Option PersistentVolume → Exec (Session conn.State) Code (Option Snapshot)
  unfolding snapshot_dialled get_node_conn get_node_name_from_csi_pv
  snapshot_source snap_name lv_name none = pure none
  snapshot_source snap_name lv_name (some pv) = do
    source ← dereference pv.csi
    let vg_name = at source.volume_attributes vg_name_key
    let node_name = get_node_name_from_csi_pv pv
    if node_name == [] then pure none else (do
      dialled ← outcome (get_node_conn K node_name)
      snapshot_dialled conn vg_name snap_name lv_name dialled)

  -- A round of `ListSnapshots`
  unfoldable pub list_snapshot :
      VolumeSnapshotContent → Exec (Session conn.State) Code (Option Snapshot)
  unfolding snapshot_source
  list_snapshot content = do
    status ← dereference content.status
    ready ← dereference status.ready_to_use
    if ready
        then (do
          lv_name ← dereference content.volume_handle
          snap_name ← dereference status.snapshot_handle
          snapshot_source snap_name lv_name (K.persistent_volume lv_name))
        else pure none

  unfoldable pub list_snapshots : Exec (Session conn.State) Code (List Snapshot)
  unfolding list_snapshot get_all_snapshot_content_of_local_csi each
  list_snapshots = each list_snapshot (K.range_contents (get_all_snapshot_content_of_local_csi K))

module _ {S : Type 0} where
  -- `ControllerGetVolume`: the error of the client is returned as it is.
  unfoldable pub controller_get_volume : Cluster → Text → Exec S Code VolumeEntry
  controller_get_volume K volume_handler = do
    guard K.has_client unknown
    pv ← or_fail (K.read_persistent_volume volume_handler) internal
    source ← dereference pv.csi
    pure (record {
      volume_id = source.volume_handle;
      capacity_bytes = to_int64 pv.encoded_size;
      abnormal = false;
      message = [];
    })

  -- `ValidateVolumeCapabilities`: what it confirms
  unfoldable pub validate_volume_capabilities :
      Text → List VolumeCapability → Exec S Code (Option (List VolumeCapability))
  unfolding to_lower is_valid_volume_capabilities
  validate_volume_capabilities volume_id vol_caps = do
    guard (not (to_lower volume_id == [])) invalid_argument
    guard (elim vol_caps [ [] ↦ false | _ ∷ _ ↦ true ]) invalid_argument
    pure (if is_valid_volume_capabilities vol_caps then some vol_caps else none)

  abbrev pub controller_get_capabilities : Exec S Code (List ℕ)
  controller_get_capabilities = pure new_controller_capabilities

  abbrev pub controller_publish_volume : Exec S Code (Unit {0})
  controller_publish_volume = pure tt

  abbrev pub controller_unpublish_volume : Exec S Code (Unit {0})
  controller_unpublish_volume = pure tt

  abbrev pub get_capacity : Exec S Code ℤ
  get_capacity = pure (pos 1024)
