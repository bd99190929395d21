-- ===== src/Controller/Nodes/Deletion.antt =====
-- `DeleteVolume` over the connection that calls the services of the nodes.
use csi_hostpath.Base.{
  ◌≡◌, refl, ap, ◌∙◌, false, Option, none, some, Text, ok, inl, inr, Option-cases, Bool-cases,
  subst, eq-eq, ◌==◌, nat_eq, list_eq, eq_refl, if◌then◌else◌, to_lower,
}
use csi_hostpath.FileSystem.{Files, quiet, IsName}
use csi_hostpath.Volume.{LogicalVolume}
use csi_hostpath.Volume.Codec.{Codec}
use csi_hostpath.Client.{Connection}
use csi_hostpath.Client.Remote
use csi_hostpath.Client.Remote.{Nodes, on_node, worker_connection}
use csi_hostpath.Client.Listing.{IsGroup, view}
use csi_hostpath.Client.Nodes.{get_volume-view, delete_volume-view}
use csi_hostpath.Cluster.{Cluster, get_vg_name_from_csi_pv}
use csi_hostpath.Controller.{Session}
use csi_hostpath.Controller.Requests.{validate_delete_volume_req}
use csi_hostpath.Controller.Volumes.{delete_volume, delete_found}
use csi_hostpath.Controller.Nodes.{IsPlaced, changed, on_node-run, back}

module _ (K : Cluster) (conn : Connection) (volume_id : Text)
    (p : IsPlaced K conn.State (to_lower volume_id))
    (valid : validate_delete_volume_req volume_id ≡ none) where
  abbrev place : Text
  place = get_vg_name_from_csi_pv p.pv

  delete_volume-absent :
      (s : Session conn.State) (s1 : conn.State)
      → conn.get_volume p.addr place (to_lower volume_id) s.0 ≡ (inr none, s1)
      → delete_volume K conn volume_id s ≡ (ok tt, (s1, s.1))
  unfolding delete_volume delete_found
  delete_volume-absent s s1 found =
      rw (valid, p.known, p.has_node, p.reached s, p.has_group, found)
        (ap (λ n. (ok tt, (s1, n))) (back s.1))

  delete_volume-present :
      (s : Session conn.State) (v : LogicalVolume) (s1 s2 : conn.State)
      → conn.get_volume p.addr place (to_lower volume_id) s.0 ≡ (inr (some v), s1)
      → conn.delete_volume p.addr place (to_lower volume_id) s1 ≡ (inr tt, s2)
      → delete_volume K conn volume_id s ≡ (ok tt, (s2, s.1))
  unfolding delete_volume delete_found
  delete_volume-present s v s1 s2 found deleted =
      rw (valid, p.known, p.has_node, p.reached s, p.has_group, found, deleted)
        (ap (λ n. (ok tt, (s2, n))) (back s.1))

module _ (K : Cluster) (J : Codec) (volume_id : Text) where
  -- `DeleteVolume`, asked for a volume with a plain name and a group, whose node can be reached,
  -- where no call on the node fails and the volumes of the group can be read, returns, whether the
  -- volume is there or not; the group no longer has the volume and can be read again, and all
  -- other volumes of the group, all other nodes and the number of open connections are as before.
  pub delete_volume_removed :
      (p : IsPlaced K Nodes (to_lower volume_id)) (s : Session Nodes) (d : Files)
      → validate_delete_volume_req volume_id ≡ none
      → s.0 p.addr ≡ quiet d
      → IsName (to_lower volume_id)
      → IsGroup J (get_vg_name_from_csi_pv p.pv) d
      → (d' : Files) × (nodes : Nodes) × (delete_volume K (worker_connection J) volume_id s
          ≡ (ok tt, (nodes, s.1)))
        × (nodes p.addr ≡ quiet d')
        × ((a : Text) → (p.addr == a) ≡ false → nodes a ≡ s.0 a)
        × IsGroup J (get_vg_name_from_csi_pv p.pv) d'
        × ((x : Text)
            → view J (get_vg_name_from_csi_pv p.pv) d' x ≡ (
                if to_lower volume_id == x
                then none
                else view J (get_vg_name_from_csi_pv p.pv) d x))
  delete_volume_removed p s d valid at plain g =
      let id = to_lower volume_id in
      let vg = get_vg_name_from_csi_pv p.pv in
      let looked = changed p.addr (quiet d) s.0 in
      let found = λ (o : Option LogicalVolume) (e : view J vg d id ≡ o).
        on_node-run p.addr (Remote.get_volume J vg id) s.0 (quiet d) (quiet d) o at
          (get_volume-view J vg id d g ∙ ap (λ r. (ok r, quiet d)) e) in
      elim (Option-cases (view J vg d id)) [
        | inl absent ↦ (
          d,
          looked,
          delete_volume-absent K (worker_connection J) volume_id p valid s looked
              (found none absent),
          rw (eq_refl p.addr) refl,
          λ a other. rw other refl,
          g,
          λ x. elim (Bool-cases (id == x)) [
            | inl same ↦ rw same (subst (λ y. view J vg d y ≡ none) (eq-eq id x same) absent)
            | inr other ↦ rw other refl
          ],
        )
        | inr (v, there) ↦
            let (d', run, g', views) = delete_volume-view J vg id plain d g in
            let nodes = changed p.addr (quiet d') looked in
            (
              d',
              nodes,
              delete_volume-present K (worker_connection J) volume_id p valid s v looked nodes
                  (found (some v) there)
                  (on_node-run p.addr (Remote.delete_volume J vg id) looked (quiet d) (quiet d') tt
                    (rw (eq_refl p.addr) refl) run),
              rw (eq_refl p.addr) refl,
              λ a other. rw other refl,
              g',
              views,
            )
      ]
