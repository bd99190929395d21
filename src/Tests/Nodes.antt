-- ===== src/Tests/Nodes.antt =====
-- The controller over a node with an empty tree, the cluster of the tests and the plain codec.
mod Snapshots
mod Sources
mod Removals
use csi_hostpath.Base.{
  ◌++◌, Bool-cases, ◌*◌, inl, subst, eq-eq, true, ◌≡◌, refl, false, none, some, [], ◌∷◌, Text, text,
  ok, ◌==◌, list_eq, nat_eq, list_beq, if◌then◌else◌, to_lower, lower, inr,
}
use csi_hostpath.Base.Int.{pos, to_uint64, add64, sub64, mul64, quot64}
use csi_hostpath.Base.Dict.{lookup}
use csi_hostpath.FileSystem.{dir, file, Files, quiet, IsName, components}
use csi_hostpath.Volume.{Vol, to_proto}
use csi_hostpath.HostPath.{new_vol, root}
use csi_hostpath.HostPath.Keys.{group_key, vol_key, meta_key}
use csi_hostpath.HostPath.Lifecycle.{IsFree}
use csi_hostpath.Client.Listing.{IsGroup, IsReadable, view}
use csi_hostpath.Client.Nodes.{create_volume-view, delete_volume-view, get_volume-view}
use csi_hostpath.Client.Remote.{Nodes, worker_connection, get_volume, create_volume, delete_volume}
use csi_hostpath.Cluster.{
  address_of, get_node_addr, get_node_ip, get_node_name_from_csi_pv, get_vg_name_from_csi_pv,
}
use csi_hostpath.Controller.{Session, get_node_conn, new_grpc_connection}
use csi_hostpath.Controller.Capacity.{get_rounded_capacity, mi}
use csi_hostpath.Controller.Requests.{
  CreateVolumeRequest, mount, new_volume_params, validate_volume_create_req, validate_request,
  member, ControllerExpandVolumeRequest, validate_delete_volume_req,
}
use csi_hostpath.Controller.Volumes.{create_volume_response}
use csi_hostpath.Controller.Volumes
use csi_hostpath.Controller.Nodes.Deletion.{delete_volume_removed}
use csi_hostpath.Controller.Nodes.Repeats.{create_volume_twice}
use csi_hostpath.Controller.Nodes.Growth.{controller_expand_volume_grown}
use csi_hostpath.Controller.Nodes.{IsServed, IsPlaced, create_volume_made}
use csi_hostpath.Tests.Memory.{cluster, some_pv, node_name}
use csi_hostpath.Tests.Plain.{plain, plain-IsLawful}

abbrev pub pool : Text
unfolding text
pool = text "pool"

abbrev pub pvc : Text
unfolding text
pvc = text "pvc"

abbrev pub addr : Text
unfolding text
addr = text "1.2.3.4:9091"

empty-IsGroup : IsGroup plain pool []
unfolding lookup
empty-IsGroup = record { unique = tt; home = inr (refl, λ x e. cc); readable = λ x e. absurd cc }

pub pvc-IsName : IsName pvc
unfolding list_beq components pvc text
pvc-IsName = (refl, refl)

pvc-IsFree : IsFree pool pvc []
unfolding lookup list_beq components root text pvc pool
pvc-IsFree = record {
  clear = (λ x e. cc, (λ x e. cc, (λ x e. cc, (λ x e. cc, tt))));
  clear_mount = (λ x e. cc, (λ x e. cc, (λ x e. cc, (λ x e. cc, (λ x e. cc, tt)))));
  plain = λ e. cc;
}

made_volume :
    (d' : Files) × (create_volume plain
        (record {
          volume_group = pool;
          name = pvc;
          size = 7;
          tags = [];
          clone_name = [];
          snapshot_name = [];
        })
        (quiet [])
      ≡ (ok pvc, quiet d'))
    × IsGroup plain pool d'
    × ((x : Text)
        → view plain pool d' x
          ≡ (if pvc == x then some (to_proto (new_vol plain pool pvc 7)) else view plain pool [] x))
unfolding plain lookup
made_volume =
    create_volume-view plain pool pvc pvc-IsName [] plain-IsLawful 7 [] empty-IsGroup pvc-IsFree
      refl refl

abbrev made : Files
made = made_volume.0

abbrev request : CreateVolumeRequest
unfolding text
request = record {
  name = text "PVC";
  required_bytes = pos 5;
  volume_capabilities = (record { access_mode = some 1; access_type = mount [] [] }) ∷ [];
  parameters =
      (text "hostpath", pool)
      ∷ (text "csi.storage.k8s.io/pvc/name", text "c")
      ∷ (text "csi.storage.k8s.io/pvc/namespace", text "d")
      ∷ [];
  volume_content_source = none;
}

abbrev start : Session Nodes
start = ((λ a. quiet []), 3)

request-IsServed : IsServed cluster Nodes request
unfolding get_node_conn new_grpc_connection get_node_addr get_node_ip address_of new_volume_params
    validate_volume_create_req lookup text list_beq
request-IsServed = record {
  annotations = _;
  node_name = node_name;
  addr = addr;
  valid = refl;
  named = refl;
  claimed = refl;
  selected = refl;
  reached = λ t. refl;
}

create_volume_made_example :
    (d' : Files) × (nodes : Nodes) × (Volumes.create_volume cluster
        (worker_connection plain)
        request
        start
      ≡ (ok (create_volume_response request node_name), (nodes, 3)))
    × (nodes addr ≡ quiet d')
    × ((a : Text) → (addr == a) ≡ false → nodes a ≡ quiet [])
    × IsGroup plain pool d'
    × ((x : Text)
        → view plain pool d' x ≡ (
            if pvc == x then some (to_proto (new_vol plain pool pvc mi)) else view plain pool [] x))
unfolding text list_beq to_lower lower new_volume_params lookup request request-IsServed plain
    get_rounded_capacity to_uint64 mul64 quot64 sub64 add64 view
create_volume_made_example =
    create_volume_made cluster plain plain-IsLawful request request-IsServed start [] refl refl
      pvc-IsName empty-IsGroup refl pvc-IsFree refl refl

create_volume_twice_example :
    (d' : Files) × (nodes : Nodes) × (Volumes.create_volume cluster
        (worker_connection plain)
        request
        start
      ≡ (ok (create_volume_response request node_name), (nodes, 3)))
    × (Volumes.create_volume cluster (worker_connection plain) request (nodes, 3)
        ≡ (ok (create_volume_response request node_name), (nodes, 3)))
    × (nodes addr ≡ quiet d')
    × (view plain pool d' pvc ≡ some (to_proto (new_vol plain pool pvc mi)))
unfolding text list_beq to_lower lower new_volume_params lookup request request-IsServed plain
    get_rounded_capacity to_uint64 mul64 quot64 sub64 add64 view
create_volume_twice_example =
    create_volume_twice cluster plain plain-IsLawful request request-IsServed start [] refl refl
      pvc-IsName empty-IsGroup refl pvc-IsFree refl refl

pub pvc-IsPlaced : IsPlaced cluster Nodes pvc
unfolding get_node_conn new_grpc_connection get_node_addr get_node_ip address_of
    get_node_name_from_csi_pv get_vg_name_from_csi_pv validate_delete_volume_req lookup text
    list_beq to_lower lower
pvc-IsPlaced = record {
  pv = some_pv;
  addr = addr;
  known = refl;
  has_node = refl;
  has_group = refl;
  reached = λ t. refl;
}

abbrev full : Session Nodes
full = ((λ a. quiet made), 3)

delete_volume_removed_example :
    (d' : Files) × (nodes : Nodes) × (Volumes.delete_volume cluster
        (worker_connection plain)
        pvc
        full
      ≡ (ok tt, (nodes, 3)))
    × (nodes addr ≡ quiet d')
    × ((a : Text) → (addr == a) ≡ false → nodes a ≡ quiet made)
    × IsGroup plain pool d'
    × ((x : Text) → view plain pool d' x ≡ (if pvc == x then none else view plain pool made x))
unfolding text list_beq to_lower lower lookup get_vg_name_from_csi_pv pvc-IsPlaced
    validate_delete_volume_req validate_request member
delete_volume_removed_example =
    delete_volume_removed cluster plain pvc pvc-IsPlaced full made refl refl pvc-IsName
      made_volume.2

-- A node with one volume
abbrev pub volume : Vol
volume = new_vol plain pool pvc 7

abbrev pub tree : Files
tree =
    (group_key pool, dir)
    ∷ (vol_key pool pvc, dir)
    ∷ (meta_key pool pvc, file (plain.marshal volume))
    ∷ []

volume_encodable : plain.IsEncodable volume
unfolding plain
volume_encodable = refl

pub pvc-IsReadable : IsReadable plain pool tree pvc
unfolding lookup list_beq components root text
pvc-IsReadable = record {
  plain = pvc-IsName;
  bytes = plain.marshal volume;
  meta = volume;
  held = refl;
  decodes = plain-IsLawful.round_trip volume volume_encodable;
  named = refl;
}

pub pvc_there : lookup (group_key pool ++ (pvc ∷ [])) tree ≡ some dir
unfolding lookup list_beq components root text
pvc_there = refl

none_else : (x : Text) → (pvc == x) ≡ false → lookup (group_key pool ++ (x ∷ [])) tree ≡ none
unfolding lookup list_beq components root text
none_else x other = rw other refl

pub tree-IsGroup : IsGroup plain pool tree
unfolding lookup list_beq components root text
tree-IsGroup = record {
  unique = (refl, (refl, (refl, tt)));
  home = inl refl;
  readable = λ x e. elim (Bool-cases (pvc == x)) [
    | inl same ↦ subst (IsReadable plain pool tree) (eq-eq pvc x same) pvc-IsReadable
    | inr other ↦ absurd (cc (none_else x other, e))
  ];
}

abbrev grow : ControllerExpandVolumeRequest
grow = record { volume_id = pvc; required_bytes = pos 1048577 }

abbrev pub served : Session Nodes
served = ((λ a. quiet tree), 3)

abbrev grown : Vol
grown = record volume { size = 2 * mi }

controller_expand_volume_grown_example :
    (d' : Files) × (nodes : Nodes) × (Volumes.controller_expand_volume cluster
        (worker_connection plain)
        grow
        served
      ≡ (ok (record { capacity_bytes = pos (2 * mi); node_expansion_required = true }), (nodes, 3)))
    × (nodes addr ≡ quiet d')
    × ((a : Text) → (addr == a) ≡ false → nodes a ≡ quiet tree)
    × IsGroup plain pool d'
    × ((x : Text)
        → view plain pool d' x
          ≡ (if pvc == x then some (to_proto grown) else view plain pool tree x))
unfolding text list_beq lookup get_vg_name_from_csi_pv pvc-IsPlaced pvc-IsReadable plain
    get_rounded_capacity to_uint64 mul64 quot64 sub64 add64
controller_expand_volume_grown_example =
    controller_expand_volume_grown cluster plain plain-IsLawful grow pvc-IsPlaced served tree refl
      pvc-IsName tree-IsGroup pvc-IsReadable pvc_there refl
