-- ===== src/Controller/Nodes/Repeats.antt =====
-- `CreateVolume` and `CreateSnapshot`, sent again, over the connection that calls the services of the
-- nodes.
use mathlib.Core.Path.{fun_ext}
use csi_hostpath.Base.{
  ◌+◌, ◌≡◌, refl, sym, ap, ◌∙◌, none, some, Text, ok, inl, inr, Option-cases, Bool-cases, eq-eq,
  ◌==◌, nat_eq, list_eq, eq_refl, to_lower,
}
use csi_hostpath.Base.Dict.{lookup}
use csi_hostpath.FileSystem.{Files, World, quiet, IsName}
use csi_hostpath.Volume.{LogicalVolume, to_proto}
use csi_hostpath.Volume.Codec.{Codec, IsLawful}
use csi_hostpath.HostPath.{new_vol}
use csi_hostpath.HostPath.Keys.{meta_key}
use csi_hostpath.HostPath.Lifecycle.{IsFree}
use csi_hostpath.Client.{Connection, VolOptions}
use csi_hostpath.Client.Remote
use csi_hostpath.Client.Remote.{Nodes, worker_connection}
use csi_hostpath.Client.Listing.{IsGroup, view}
use csi_hostpath.Client.Nodes.{get_volume-view}
use csi_hostpath.Cluster.{Cluster, get_node_name_from_csi_pv}
use csi_hostpath.Controller.{Session, get_node_conn}
use csi_hostpath.Controller.Requests.{
  CreateVolumeRequest, new_volume_params, no_source, from_snapshot, from_volume,
}
use csi_hostpath.Controller.Volumes.{
  create_volume, ensure_volume, create_options, create_volume_response,
}
use csi_hostpath.Base.Int.{ℤ}
use csi_hostpath.Controller.Nodes.{
  IsServed, IsPlaced, changed, on_node-run, create_volume-run, create_volume_made, id, vg, size,
}

changed_same : (addr : Text) (w : World) (s : Nodes) → s addr ≡ w → changed addr w s ≡ s
changed_same addr w s at = fun_ext (λ a. elim (Bool-cases (addr == a)) [
  | inl same ↦ rw same (sym at ∙ ap s (eq-eq addr a same))
  | inr other ↦ rw other refl
])

-- Asking a node for a volume leaves the nodes as they are.
pub get_volume_unchanged :
    (J : Codec) (addr place name : Text) (s : Nodes) (d : Files)
    → s addr ≡ quiet d
    → IsGroup J place d
    → (worker_connection J).get_volume addr place name s ≡ (inr (view J place d name), s)
get_volume_unchanged J addr place name s d at g =
    on_node-run addr (Remote.get_volume J place name) s (quiet d) (quiet d) (view J place d name) at
      (get_volume-view J place name d g)
    ∙ ap (λ t. (inr (view J place d name), t)) (changed_same addr (quiet d) s at)

create_options_place :
    (req : CreateVolumeRequest)
    → ((create_options req).volume_group ≡ (new_volume_params req.parameters).host_path)
      × ((create_options req).name ≡ to_lower req.name)
unfolding create_options
create_options_place req = elim (Option-cases req.volume_content_source) [
  | inl e ↦ (rw e refl, rw e refl)
  | inr (no_source, e) ↦ (rw e refl, rw e refl)
  | inr (from_snapshot source, e) ↦ (rw e refl, rw e refl)
  | inr (from_volume source, e) ↦ (rw e refl, rw e refl)
]

ensure_volume_there :
    (conn : Connection) (addr : Text) (o : VolOptions) (s : Session conn.State) (x : LogicalVolume)
    → conn.get_volume addr o.volume_group o.name s.0 ≡ (inr (some x), s.0)
    → ensure_volume conn addr o s ≡ (ok tt, s)
unfolding ensure_volume
ensure_volume_there conn addr o s x found = rw found refl

module _ (K : Cluster) (J : Codec) (L : IsLawful J) (req : CreateVolumeRequest)
    (v : IsServed K Nodes req) where
  -- A volume that is there is not made again.
  create_volume_there :
      (s : Session Nodes) (d : Files) (x : LogicalVolume)
      → s.0 v.addr ≡ quiet d
      → IsGroup J (vg K J L req) d
      → view J (vg K J L req) d (id K J L req) ≡ some x
      → create_volume K (worker_connection J) req s
        ≡ (ok (create_volume_response req v.node_name), s)
  create_volume_there s d x at g there =
      let (place, name) = create_options_place req in
      let conn = worker_connection J in
      let found =
        ap (λ p. conn.get_volume v.addr p (create_options req).name s.0) place
        ∙ ap (λ n. conn.get_volume v.addr (vg K J L req) n s.0) name
        ∙ get_volume_unchanged J v.addr (vg K J L req) (id K J L req) s.0 d at g
        ∙ ap (λ o. (inr o, s.0)) there in
      create_volume-run conn K req v s s.0
        (ensure_volume_there conn v.addr (create_options req) (s.0, s.1 + 1) x found)

  -- `CreateVolume` of an empty volume, for a valid request whose node can be reached, where no call on
  -- the node fails, the volumes of the group can be read and do not have the volume, its name is
  -- plain, nothing stands in its way and its record can be encoded: it returns the response, and
  -- repeating the request then returns the same response and changes neither a node nor the number
  -- of open connections. After both, the group has the volume, with its size.
  pub create_volume_twice :
      (s : Session Nodes) (d : Files)
      → req.volume_content_source ≡ none
      → s.0 v.addr ≡ quiet d
      → IsName (id K J L req)
      → IsGroup J (vg K J L req) d
      → view J (vg K J L req) d (id K J L req) ≡ none
      → IsFree (vg K J L req) (id K J L req) d
      → lookup (meta_key (vg K J L req) (id K J L req)) d ≡ none
      → J.IsEncodable (new_vol J (vg K J L req) (id K J L req) (size K J L req))
      → (d' : Files) × (nodes : Nodes) × (create_volume K (worker_connection J) req s
          ≡ (ok (create_volume_response req v.node_name), (nodes, s.1)))
        × (create_volume K (worker_connection J) req (nodes, s.1)
            ≡ (ok (create_volume_response req v.node_name), (nodes, s.1)))
        × (nodes v.addr ≡ quiet d')
        × (view J (vg K J L req) d' (id K J L req)
            ≡ some (to_proto (new_vol J (vg K J L req) (id K J L req) (size K J L req))))
  create_volume_twice s d empty at plain g absent free missing enc =
      let (d', nodes, run, at', others, g', views) =
        create_volume_made K J L req v s d empty at plain g absent free missing enc in
      let there = views (id K J L req) ∙ rw (eq_refl (id K J L req)) refl in
      (d', nodes, run, create_volume_there (nodes, s.1) d' _ at' g' there, at', there)

-- The cluster at another time
abbrev pub later : Cluster → ℤ → Cluster
later K time = record K { now = time }

get_node_conn-later :
    {State : Type 0} (K : Cluster) (time : ℤ) (node_name : Text) (s : Session State)
    → get_node_conn (later K time) node_name s ≡ get_node_conn K node_name s
unfolding get_node_conn
get_node_conn-later K time node_name s = refl

-- A node that can be reached can be reached later.
abbrev placed_later :
    (K : Cluster) (State : Type 0) (volume_id : Text) (time : ℤ)
    → IsPlaced K State volume_id
    → IsPlaced (later K time) State volume_id
placed_later K State volume_id time p = record {
  pv = p.pv;
  addr = p.addr;
  known = p.known;
  has_group = p.has_group;
  has_node = p.has_node;
  reached = λ s. get_node_conn-later K time (get_node_name_from_csi_pv p.pv) s ∙ p.reached s;
}
