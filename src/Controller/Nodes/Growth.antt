-- ===== src/Controller/Nodes/Growth.antt =====
-- `ControllerExpandVolume` over the connection that calls the services of the nodes.
use csi_hostpath.Base.{
  ◌++◌, ◌≡◌, refl, ap, true, ◌∷◌, false, some, [], Text, ok, inr, ◌==◌, nat_eq, list_eq, eq_refl,
  if◌then◌else◌,
}
use csi_hostpath.Base.Dict.{lookup}
use csi_hostpath.Base.Int.{to_uint64}
use csi_hostpath.Controller.Capacity.{get_rounded_capacity}
use csi_hostpath.FileSystem.{dir, Files, quiet, IsName}
use csi_hostpath.Volume.{to_proto}
use csi_hostpath.Volume.Codec.{Codec, IsLawful}
use csi_hostpath.HostPath.Keys.{group_key}
use csi_hostpath.Client.{Connection}
use csi_hostpath.Client.Remote
use csi_hostpath.Client.Remote.{Nodes, on_node, worker_connection}
use csi_hostpath.Client.Listing.{IsGroup, IsReadable, view}
use csi_hostpath.Client.Nodes.{expand_volume-view}
use csi_hostpath.Cluster.{Cluster, get_vg_name_from_csi_pv}
use csi_hostpath.Controller.{Session}
use csi_hostpath.Controller.Requests.{ControllerExpandVolumeRequest}
use csi_hostpath.Controller.Volumes.{controller_expand_volume}
use csi_hostpath.Controller.Nodes.{IsPlaced, changed, on_node-run, back}

controller_expand_volume-run :
    (K : Cluster) (conn : Connection) (req : ControllerExpandVolumeRequest)
    (p : IsPlaced K conn.State req.volume_id) (s : Session conn.State) (s2 : conn.State)
    → conn.expand_volume p.addr
        (get_vg_name_from_csi_pv p.pv)
        req.volume_id
        (to_uint64 (get_rounded_capacity req.required_bytes))
        s.0
      ≡ (inr tt, s2)
    → controller_expand_volume K conn req s ≡ (
      ok (record {
        capacity_bytes = get_rounded_capacity req.required_bytes;
        node_expansion_required = true;
      }),
      (s2, s.1),
    )
unfolding controller_expand_volume
controller_expand_volume-run K conn req p s s2 run =
    rw (p.known, p.has_group, p.has_node, p.reached s, run)
      (ap
        (λ n. (
          ok (record {
            capacity_bytes = get_rounded_capacity req.required_bytes;
            node_expansion_required = true;
          }),
          (s2, n),
        ))
        (back s.1))

-- `ControllerExpandVolume` of a volume with a plain name and a group, whose node can be reached and
-- has the volume, where no call on the node fails, the volumes of the group can be read and the
-- record with the new size can be encoded, returns the size that is asked for, rounded; the volume
-- has that size, the group can be read again, and all other volumes of the group, all other nodes
-- and the number of open connections are as before.
pub controller_expand_volume_grown :
    (K : Cluster) (J : Codec) (L : IsLawful J) (req : ControllerExpandVolumeRequest)
    (p : IsPlaced K Nodes req.volume_id) (s : Session Nodes) (d : Files)
    → let vg = get_vg_name_from_csi_pv p.pv in
      let size = to_uint64 (get_rounded_capacity req.required_bytes) in
      s.0 p.addr ≡ quiet d
      → IsName req.volume_id
      → IsGroup J vg d
      → (r : IsReadable J vg d req.volume_id)
      → lookup (group_key vg ++ (req.volume_id ∷ [])) d ≡ some dir
      → J.IsEncodable (record r.meta { size = size })
      → (d' : Files) × (nodes : Nodes) × (controller_expand_volume K (worker_connection J) req s ≡ (
        ok (record {
          capacity_bytes = get_rounded_capacity req.required_bytes;
          node_expansion_required = true;
        }),
        (nodes, s.1),
      ))
        × (nodes p.addr ≡ quiet d')
        × ((a : Text) → (p.addr == a) ≡ false → nodes a ≡ s.0 a)
        × IsGroup J vg d'
        × ((x : Text)
            → view J vg d' x ≡ (
                if req.volume_id == x
                then some (to_proto (record r.meta { size = size }))
                else view J vg d x))
controller_expand_volume_grown K J L req p s d at plain g r there enc =
    let vg = get_vg_name_from_csi_pv p.pv in
    let size = to_uint64 (get_rounded_capacity req.required_bytes) in
    let (d', run, g', views) = expand_volume-view J vg req.volume_id plain d L size g r there enc in
    let nodes = changed p.addr (quiet d') s.0 in
    (
      d',
      nodes,
      controller_expand_volume-run K (worker_connection J) req p s nodes (
          on_node-run p.addr (Remote.expand_volume J vg req.volume_id size) s.0 (quiet d) (quiet d')
            tt at run),
      rw (eq_refl p.addr) refl,
      λ a other. rw other refl,
      g',
      views,
    )
