-- ===== src/Controller/Nodes/Removals.antt =====
-- `DeleteSnapshot` over the connection that calls the services of the nodes.
use csi_hostpath.Base.{
  ◌≡◌, refl, ap, ◌∙◌, false, Option, none, some, [], Text, ok, inl, inr, ◌==◌, nat_eq, list_eq,
  eq_refl, eq-eq, subst, Bool-cases, Option-cases, if◌then◌else◌,
}
use csi_hostpath.FileSystem.{Files, quiet, IsName}
use csi_hostpath.Volume.{LogicalVolume}
use csi_hostpath.Volume.Codec.{Codec}
use csi_hostpath.Client.{Connection}
use csi_hostpath.Client.Remote
use csi_hostpath.Client.Remote.{Nodes, worker_connection}
use csi_hostpath.Client.Listing.{IsGroup, view}
use csi_hostpath.Client.Nodes.{get_volume-view, delete_snapshot-held}
use csi_hostpath.Cluster.{Cluster, get_vg_name_from_csi_pv, get_volume_snapshot_content}
use csi_hostpath.Controller.{Session}
use csi_hostpath.Controller.Snapshots.{delete_snapshot}
use csi_hostpath.Controller.Nodes.{IsPlaced, changed, on_node-run, back}

module _ (K : Cluster) (conn : Connection) (snapshot_id source : Text)
    (p : IsPlaced K conn.State source) (named : (snapshot_id == []) ≡ false)
    (known : get_volume_snapshot_content K snapshot_id ≡ some (some source)) where
  abbrev place : Text
  place = get_vg_name_from_csi_pv p.pv

  delete_snapshot-absent :
      (s : Session conn.State) (s1 : conn.State)
      → conn.get_volume p.addr place snapshot_id s.0 ≡ (inr none, s1)
      → delete_snapshot K conn snapshot_id s ≡ (ok tt, (s1, s.1))
  unfolding delete_snapshot
  delete_snapshot-absent s s1 found =
      rw (named, known, p.known, p.has_group, p.has_node, p.reached s, found)
        (ap (λ n. (ok tt, (s1, n))) (back s.1))

  delete_snapshot-present :
      (s : Session conn.State) (v : LogicalVolume) (s1 s2 : conn.State)
      → conn.get_volume p.addr place snapshot_id s.0 ≡ (inr (some v), s1)
      → conn.delete_snapshot p.addr place snapshot_id s1 ≡ (inr tt, s2)
      → delete_snapshot K conn snapshot_id s ≡ (ok tt, (s2, s.1))
  unfolding delete_snapshot
  delete_snapshot-present s v s1 s2 found deleted =
      rw (named, known, p.known, p.has_group, p.has_node, p.reached s, found, deleted)
        (ap (λ n. (ok tt, (s2, n))) (back s.1))

-- `DeleteSnapshot` of a snapshot with a plain name, whose content names a source volume with a group
-- and a node that can be reached, where no call on the node fails and the volumes of the group can be
-- read, returns, whether the snapshot is there or not; the group no longer has the snapshot and can
-- be read again, and all other volumes of the group, the source included where its name is another,
-- all other nodes and the number of open connections are as before.
pub delete_snapshot_removed :
    (K : Cluster) (J : Codec) (snapshot_id source : Text) (p : IsPlaced K Nodes source)
    (s : Session Nodes) (d : Files)
    → (snapshot_id == []) ≡ false
    → get_volume_snapshot_content K snapshot_id ≡ some (some source)
    → s.0 p.addr ≡ quiet d
    → IsName snapshot_id
    → IsGroup J (get_vg_name_from_csi_pv p.pv) d
    → (d' : Files) × (nodes : Nodes) × (delete_snapshot K (worker_connection J) snapshot_id s
        ≡ (ok tt, (nodes, s.1)))
      × (nodes p.addr ≡ quiet d')
      × ((a : Text) → (p.addr == a) ≡ false → nodes a ≡ s.0 a)
      × IsGroup J (get_vg_name_from_csi_pv p.pv) d'
      × ((x : Text)
          → view J (get_vg_name_from_csi_pv p.pv) d' x
            ≡ (if snapshot_id == x then none else view J (get_vg_name_from_csi_pv p.pv) d x))
delete_snapshot_removed K J id source p s d named known at plain g =
    let vg = get_vg_name_from_csi_pv p.pv in
    let looked = changed p.addr (quiet d) s.0 in
    let found = λ (o : Option LogicalVolume) (e : view J vg d id ≡ o).
      on_node-run p.addr (Remote.get_volume J vg id) s.0 (quiet d) (quiet d) o at
        (get_volume-view J vg id d g ∙ ap (λ r. (ok r, quiet d)) e) in
    elim (Option-cases (view J vg d id)) [
      | inl absent ↦ (
        d,
        looked,
        delete_snapshot-absent K (worker_connection J) id source p named known s looked
            (found none absent),
        rw (eq_refl p.addr) refl,
        λ a other. rw other refl,
        g,
        λ x. elim (Bool-cases (id == x)) [
          | inl same ↦ rw same (subst (λ y. view J vg d y ≡ none) (eq-eq id x same) absent)
          | inr other ↦ rw other refl
        ],
      )
      | inr (v, there) ↦
          let (d', run, c) = delete_snapshot-held J vg id plain d g in
          let nodes = changed p.addr (quiet d') looked in
          (
            d',
            nodes,
            delete_snapshot-present K (worker_connection J) id source p named known s v looked nodes
                (found (some v) there)
                (on_node-run p.addr (Remote.delete_snapshot J vg id) looked (quiet d) (quiet d') tt
                  (rw (eq_refl p.addr) refl) run),
            rw (eq_refl p.addr) refl,
            λ a other. rw other refl,
            c.group,
            c.views,
          )
    ]
