-- ===== src/Controller/Groups.antt =====
-- pkg/driver/group_controller.go: the snapshots of several volumes at once.
pub mod Removal
use csi_hostpath.Base.{
  Option, none, some, List, [], ◌∷◌, ◌++◌, Bool, true, false, not, ◌&&◌, Text, text, nat_eq,
  list_eq, ◌==◌, if◌then◌else◌, Outcome, ok, err, panic, Exec, pure, fail, guard, or_fail, attempt,
  ◌>>=◌, ◌>>◌,
}
use csi_hostpath.Base.Int.{ℤ, pos, ltb_ℤ}
use csi_hostpath.Cluster.{
  Cluster, PersistentVolume, get_node_name_from_csi_pv, get_vg_name_from_csi_pv,
  get_volume_snapshot_content,
}
use csi_hostpath.Volume.{LogicalVolume}
use csi_hostpath.Client.{Connection}
use csi_hostpath.Controller.{
  Code, internal, Session, or_internal, call, close, closing, get_node_conn,
}
use csi_hostpath.Controller.Requests.{
  Snapshot, CreateVolumeGroupSnapshotRequest, VolumeGroupSnapshot,
}
use csi_hostpath.Controller.Snapshots.{dereference}

-- What one round of the loop adds to the snapshots, and whether the group is ready for all it does
abbrev pub Round : Type 0
Round = List Snapshot × Bool

-- `if sizeBytes > 0 { snapshots = append(…) }`
abbrev pub taken : Cluster → Text → Text → Text → ℤ → List Snapshot
taken K vg_snap_name vol_name snapshot_name size_bytes =
    if ltb_ℤ (pos 0) size_bytes
    then record {
      size_bytes = size_bytes;
      snapshot_id = snapshot_name;
      source_volume_id = vol_name;
      creation_time = some K.now;
      ready_to_use = true;
      group_snapshot_id = vg_snap_name;
    }
      ∷ []
    else []

-- What became of a call, whose error is only logged
abbrev pub outcome : {S A : Type 0} → Exec S Text A → Exec S Code (Outcome Text A)
outcome m = or_internal (attempt m)

abbrev pub size_made : {S : Type 0} → Outcome Text ℤ → Exec S Code (ℤ × Bool)
size_made (ok size_bytes) = pure (size_bytes, true)
size_made (err _) = pure (pos 0, false)
size_made panic = pure (pos 0, false)

module _ (conn : Connection) where
  -- The size of the snapshot that is made, 0 where none is, and whether the group stays ready
  abbrev pub snapshot_missing :
      Text
      → Text
      → Text
      → Text
      → Outcome Text (Option LogicalVolume)
      → Exec (Session conn.State) Code (ℤ × Bool)
  snapshot_missing addr vg_name snapshot_name vol_name (ok none) = do
    created ← outcome (call (conn.create_snapshot addr vg_name snapshot_name vol_name))
    size_made created
  snapshot_missing addr vg_name snapshot_name vol_name (ok (some _)) = pure (pos 0, true)
  snapshot_missing addr vg_name snapshot_name vol_name (err _) = pure (pos 0, true)
  snapshot_missing addr vg_name snapshot_name vol_name panic = pure (pos 0, true)

  -- What is done over the connection to the node
  unfoldable pub snapshot_over :
      Cluster → Text → Text → Text → Text → Text → Exec (Session conn.State) Code Round
  snapshot_over K vg_snap_name vol_name addr vg_name snapshot_name = do
    found ← outcome (call (conn.get_volume addr vg_name snapshot_name))
    made ← snapshot_missing addr vg_name snapshot_name vol_name found
    pure (taken K vg_snap_name vol_name snapshot_name made.0, made.1)

module _ (K : Cluster) (conn : Connection) where
  -- Behind `getNodeConn`; nothing leaves the round before `conn.Close()`.
  unfoldable pub snapshot_connected :
      Text → Text → Text → Text → Outcome Text Text → Exec (Session conn.State) Code Round
  unfolding snapshot_over
  snapshot_connected vg_snap_name vol_name vg_name snapshot_name (ok addr) =
      closing (snapshot_over conn K vg_snap_name vol_name addr vg_name snapshot_name)
  snapshot_connected vg_snap_name vol_name vg_name snapshot_name (err _) = pure ([], false)
  snapshot_connected vg_snap_name vol_name vg_name snapshot_name panic = pure ([], false)

  -- One round of the loop; `continue` adds nothing, and the group is not ready.
  unfoldable pub snapshot_found :
      Text → Text → Option PersistentVolume → Exec (Session conn.State) Code Round
  unfolding snapshot_connected get_node_conn get_node_name_from_csi_pv get_vg_name_from_csi_pv text
  snapshot_found vg_snap_name vol_name none = pure ([], false)
  snapshot_found vg_snap_name vol_name (some src_pv) =
      let vg_name = get_vg_name_from_csi_pv src_pv in
      let node_name = get_node_name_from_csi_pv src_pv in
      let snapshot_name = vg_snap_name ++ text "-" ++ src_pv.name in
      if vg_name == []
      then pure ([], false)
      else (if node_name == []
          then pure ([], false)
          else (outcome (get_node_conn K node_name)
              >>= snapshot_connected vg_snap_name vol_name vg_name snapshot_name))

  unfoldable pub snapshot_volume : Text → Text → Exec (Session conn.State) Code Round
  unfolding snapshot_found
  snapshot_volume vg_snap_name vol_name =
      snapshot_found vg_snap_name vol_name (K.persistent_volume vol_name)

  unfoldable pub snapshot_all : Text → List Text → Exec (Session conn.State) Code Round
  unfolding snapshot_volume
  snapshot_all vg_snap_name [] = pure ([], true)
  snapshot_all vg_snap_name (vol_name ∷ vol_names) = do
    r ← snapshot_volume vg_snap_name vol_name
    rest ← snapshot_all vg_snap_name vol_names
    pure (r.0 ++ rest.0, r.1 && rest.1)

  unfoldable pub create_volume_group_snapshot :
      CreateVolumeGroupSnapshotRequest → Exec (Session conn.State) Code VolumeGroupSnapshot
  unfolding snapshot_all
  create_volume_group_snapshot req = do
    r ← snapshot_all req.name req.source_volume_ids
    pure (record {
      group_snapshot_id = req.name;
      snapshots = r.0;
      creation_time = K.now;
      ready_to_use = r.1;
    })

-- Behind the two calls of a round of `DeleteVolumeGroupSnapshot`: an error closes the connection
-- before it returns.
abbrev pub member_deleted :
    {S : Type 0} → Outcome Text (Unit {0}) → Exec (Session S) Code (Unit {0})
member_deleted (ok _) = close
member_deleted (err _) = close >> fail internal
member_deleted panic = close >> fail internal

abbrev pub member_found :
    (conn : Connection)
    → Text
    → Text
    → Text
    → Outcome Text (Option LogicalVolume)
    → Exec (Session conn.State) Code (Unit {0})
member_found conn addr vg_name snapshot_id (ok none) = close
member_found conn addr vg_name snapshot_id (ok (some _)) =
    outcome (call (conn.delete_snapshot addr vg_name snapshot_id)) >>= member_deleted
member_found conn addr vg_name snapshot_id (err _) = close >> fail internal
member_found conn addr vg_name snapshot_id panic = close >> fail internal

module _ (K : Cluster) (conn : Connection) where
  unfoldable pub delete_member : Text → Exec (Session conn.State) Code (Unit {0})
  unfolding get_node_conn get_node_name_from_csi_pv get_vg_name_from_csi_pv
      get_volume_snapshot_content
  delete_member snapshot_id = do
    handle ← or_fail (get_volume_snapshot_content K snapshot_id) internal
    src_volume_id ← dereference handle
    pv ← or_fail (K.persistent_volume src_volume_id) internal
    let vg_name = get_vg_name_from_csi_pv pv
    guard (not (vg_name == [])) internal
    let node_name = get_node_name_from_csi_pv pv
    guard (not (node_name == [])) internal
    addr ← or_internal (get_node_conn K node_name)
    found ← outcome (call (conn.get_volume addr vg_name snapshot_id))
    member_found conn addr vg_name snapshot_id found

  unfoldable pub delete_volume_group_snapshot :
      List Text → Exec (Session conn.State) Code (Unit {0})
  unfolding delete_member
  delete_volume_group_snapshot [] = pure tt
  delete_volume_group_snapshot (snapshot_id ∷ snapshot_ids) = do
    delete_member snapshot_id
    delete_volume_group_snapshot snapshot_ids
