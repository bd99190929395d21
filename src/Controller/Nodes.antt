-- ===== src/Controller/Nodes.antt =====
-- The controller over the connection that calls the services of the nodes: what its handlers do to the
-- volumes of a node where no call fails.
pub mod Deletion
pub mod Growth
pub mod Repeats
pub mod Snapshots
pub mod Sources
pub mod Removals
pub mod Groups
use csi_hostpath.Base.{
  ℕ, ◌++◌, ◌+◌, ◌-◌, ◌≡◌, refl, ap, ◌∙◌, true, ◌∷◌, false, Option, none, some, [], Text, ok, inl,
  inr, Option-cases, Bool-cases, subst, eq-eq, ◌==◌, ◌||◌, nat_eq, list_eq, eq_refl, if◌then◌else◌,
  arith, to_lower,
}
use csi_hostpath.Base.Dict.{Dict, lookup}
use csi_hostpath.Base.Int.{to_uint64}
use csi_hostpath.Controller.Capacity.{get_rounded_capacity}
use csi_hostpath.FileSystem.{dir, Files, World, quiet, IsName, Os}
use csi_hostpath.Volume.{LogicalVolume, to_proto}
use csi_hostpath.Volume.Codec.{Codec, IsLawful}
use csi_hostpath.HostPath.{new_vol}
use csi_hostpath.HostPath.Keys.{meta_key, group_key}
use csi_hostpath.HostPath.Lifecycle.{IsFree}
use csi_hostpath.Client.{Connection, VolOptions, no_options}
use csi_hostpath.Client.Remote
use csi_hostpath.Client.Remote.{Nodes, on_node, worker_connection}
use csi_hostpath.Client.Listing.{IsGroup, IsReadable, view}
use csi_hostpath.Client.Nodes.{
  get_volume-view, create_volume-view, delete_volume-view, expand_volume-view,
}
use csi_hostpath.Cluster.{
  Cluster, PersistentVolume, get_vg_name_from_csi_pv, get_node_name_from_csi_pv,
}
use csi_hostpath.Controller.{Session, get_node_conn}
use csi_hostpath.Controller.Requests.{
  ControllerExpandVolumeRequest, CreateVolumeRequest, validate_volume_create_req,
  validate_delete_volume_req, new_volume_params,
}
use csi_hostpath.Controller.Volumes.{
  controller_expand_volume, create_volume, delete_volume, delete_found, ensure_volume,
  create_options, create_volume_response, anno_selected_node,
}

-- The nodes with one of them changed
abbrev pub changed : Text → World → Nodes → Nodes
changed addr w s = λ a. if addr == a then w else s a

pub on_node-run :
    {A : Type 0} (addr : Text) (m : Os A) (s : Nodes) (w w' : World) (a : A)
    → s addr ≡ w
    → m w ≡ (ok a, w')
    → on_node addr m s ≡ (inr a, changed addr w' s)
on_node-run addr m s w w' a e run = rw (e, run) refl

-- A request that passes the checks, and whose claim has a node that can be reached
pub record IsServed (K : Cluster) (State : Type 0) (req : CreateVolumeRequest) : Type 0 where
  pub annotations : Dict Text Text
  pub node_name : Text
  pub addr : Text
  pub valid : validate_volume_create_req req ≡ none
  pub named :
      ((new_volume_params req.parameters).pvc_name == []
        || (new_volume_params req.parameters).pvc_namespace == [])
      ≡ false
  pub claimed :
      K.claim_annotations
        (new_volume_params req.parameters).pvc_namespace
        (new_volume_params req.parameters).pvc_name
      ≡ some annotations
  pub selected : lookup anno_selected_node annotations ≡ some node_name
  pub reached : (t : Session State) → get_node_conn K node_name t ≡ (ok addr, (t.0, t.1 + 1))

pub back : (n : ℕ) → n + 1 - 1 ≡ n
back n = omega arith

module _ (conn : Connection) where
  pub ensure_volume-run :
      (addr : Text) (o : VolOptions) (s : Session conn.State) (s1 s2 : conn.State) (out : Text)
      → conn.get_volume addr o.volume_group o.name s.0 ≡ (inr none, s1)
      → conn.create_volume addr o s1 ≡ (inr out, s2)
      → ensure_volume conn addr o s ≡ (ok tt, (s2, s.1))
  unfolding ensure_volume
  ensure_volume-run addr o s s1 s2 out found made = rw (found, made) refl

  pub create_volume-run :
      (K : Cluster) (req : CreateVolumeRequest) (v : IsServed K conn.State req)
      (s : Session conn.State) (s2 : conn.State)
      → ensure_volume conn v.addr (create_options req) (s.0, s.1 + 1) ≡ (ok tt, (s2, s.1 + 1))
      → create_volume K conn req s ≡ (ok (create_volume_response req v.node_name), (s2, s.1))
  unfolding create_volume
  create_volume-run K req v s s2 run =
      rw (v.valid, v.named, v.claimed, v.selected, v.reached s, run)
        (ap (λ n. (ok (create_volume_response req v.node_name), (s2, n))) (back s.1))

-- The options of a request for an empty volume
plain_options : (req : CreateVolumeRequest) → VolOptions
plain_options req = record no_options {
  name = to_lower req.name;
  volume_group = (new_volume_params req.parameters).host_path;
  size = to_uint64 (get_rounded_capacity req.required_bytes);
}

create_options-plain :
    (req : CreateVolumeRequest)
    → req.volume_content_source ≡ none
    → create_options req ≡ plain_options req
unfolding create_options plain_options
create_options-plain req e = rw e refl

module _ (K : Cluster) (J : Codec) (L : IsLawful J) (req : CreateVolumeRequest) where
  abbrev pub id : Text
  id = to_lower req.name

  abbrev pub vg : Text
  vg = (new_volume_params req.parameters).host_path

  abbrev pub size : ℕ
  size = to_uint64 (get_rounded_capacity req.required_bytes)

  -- `CreateVolume` of an empty volume, for a valid request whose node can be reached, where no
  -- call on the node fails, the volumes of the group can be read and do not have the volume, its
  -- name is plain, nothing stands in its way and its record can be encoded: it returns the
  -- response, the group has the volume with its size and can be read again, and all other volumes
  -- of the group, all other nodes and the number of open connections are as before.
  pub create_volume_made :
      (v : IsServed K Nodes req) (s : Session Nodes) (d : Files)
      → req.volume_content_source ≡ none
      → s.0 v.addr ≡ quiet d
      → IsName id
      → IsGroup J vg d
      → view J vg d id ≡ none
      → IsFree vg id d
      → lookup (meta_key vg id) d ≡ none
      → J.IsEncodable (new_vol J vg id size)
      → (d' : Files) × (nodes : Nodes) × (create_volume K (worker_connection J) req s
          ≡ (ok (create_volume_response req v.node_name), (nodes, s.1)))
        × (nodes v.addr ≡ quiet d')
        × ((a : Text) → (v.addr == a) ≡ false → nodes a ≡ s.0 a)
        × IsGroup J vg d'
        × ((x : Text)
            → view J vg d' x
              ≡ (if id == x then some (to_proto (new_vol J vg id size)) else view J vg d x))
  unfolding plain_options
  create_volume_made v s d empty at plain g absent free missing enc =
      let (d', run, g', views) = create_volume-view J vg id plain d L size [] g free missing enc in
      let looked = changed v.addr (quiet d) s.0 in
      let nodes = changed v.addr (quiet d') looked in
      let found =
        on_node-run v.addr (Remote.get_volume J vg id) s.0 (quiet d) (quiet d) none at
          (get_volume-view J vg id d g ∙ ap (λ o. (ok o, quiet d)) absent) in
      let made =
        on_node-run v.addr (Remote.create_volume J (plain_options req)) looked (quiet d) (quiet d')
          id (rw (eq_refl v.addr) refl) run in
      let ensured =
        ensure_volume-run (worker_connection J) v.addr (plain_options req) (s.0, s.1 + 1) looked
          nodes id found made in
      (
        d',
        nodes,
        create_volume-run (worker_connection J) K req v s nodes (
            ap (λ o. ensure_volume (worker_connection J) v.addr o (s.0, s.1 + 1))
              (create_options-plain req empty)
            ∙ ensured),
        rw (eq_refl v.addr) refl,
        λ a other. rw other refl,
        g',
        views,
      )

-- A volume with a group, whose node can be reached
pub record IsPlaced (K : Cluster) (State : Type 0) (volume_id : Text) : Type 0 where
  pub pv : PersistentVolume
  pub addr : Text
  pub known : K.persistent_volume volume_id ≡ some pv
  pub has_node : (get_node_name_from_csi_pv pv == []) ≡ false
  pub has_group : (get_vg_name_from_csi_pv pv == []) ≡ false
  pub reached :
      (t : Session State)
      → get_node_conn K (get_node_name_from_csi_pv pv) t ≡ (ok addr, (t.0, t.1 + 1))
