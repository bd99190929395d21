-- ===== src/Tests/Nodes/Sources.antt =====
-- A volume from another one, over the node with one volume.
use csi_hostpath.Base.{
  ◌≡◌, refl, true, false, none, some, [], ◌∷◌, ◌++◌, Text, text, ok, inl, inr, ◌==◌, list_eq,
  nat_eq, list_beq, to_lower, lower, Bool-cases,
}
use csi_hostpath.Base.Int.{pos, to_uint64, add64, sub64, mul64, quot64}
use csi_hostpath.Base.Dict.{lookup}
use csi_hostpath.FileSystem.{FilePath, Files, quiet, IsName, components, dir}
use csi_hostpath.Volume.{to_proto}
use csi_hostpath.HostPath.{root}
use csi_hostpath.HostPath.Keys.{group_key}
use csi_hostpath.Client.Listing.{view, view-readable}
use csi_hostpath.Client.Remote.{Nodes, worker_connection}
use csi_hostpath.Client.Tidy.{IsTidy}
use csi_hostpath.Client.Requests.{change}
use csi_hostpath.Controller.{get_node_conn, new_grpc_connection}
use csi_hostpath.Cluster.{get_node_addr, get_node_ip, address_of}
use csi_hostpath.Controller.Capacity.{get_rounded_capacity}
use csi_hostpath.Controller.Requests.{
  CreateVolumeRequest, from_volume, mount, new_volume_params, validate_volume_create_req,
}
use csi_hostpath.Controller.Volumes.{create_volume, create_volume_response}
use csi_hostpath.Controller.Nodes.{IsServed}
use csi_hostpath.Controller.Nodes.Sources.{create_volume_copied}
use csi_hostpath.Tests.Memory.{cluster, node_name}
use csi_hostpath.Tests.Plain.{plain, plain-IsLawful}
use csi_hostpath.Tests.Nodes.{
  pool, pvc, addr, tree, volume, served, tree-IsGroup, pvc-IsReadable, pvc_there,
}

abbrev other : Text
unfolding text
other = text "o"

elsewhere :
    (x : Text) (q : FilePath) → (pvc == x) ≡ false → lookup (group_key pool ++ (x ∷ q)) tree ≡ none
unfolding lookup list_beq components root text
elsewhere x q apart = rw apart refl

held_there : (x : Text) → (pvc == x) ≡ true → lookup (group_key pool ++ (x ∷ [])) tree ≡ some dir
unfolding lookup list_beq components root text
held_there x same = rw same refl

tree-IsTidy : IsTidy plain pool tree
unfolding lookup list_beq components root text
tree-IsTidy = record {
  group = tree-IsGroup;
  clear = (λ b e. cc, (λ b e. cc, (λ b e. cc, tt)));
  plain = λ x b e. elim (Bool-cases (pvc == x)) [
    | inl same ↦ cc (held_there x same, e)
    | inr apart ↦ cc (elsewhere x [] apart, e)
  ];
  blank = λ x h q. elim (Bool-cases (pvc == x)) [
    | inl same ↦ absurd (cc (held_there x same, h))
    | inr apart ↦ elsewhere x q apart
  ];
}

abbrev request : CreateVolumeRequest
unfolding text
request = record {
  name = text "O";
  required_bytes = pos 5;
  volume_capabilities = (record { access_mode = some 1; access_type = mount [] [] }) ∷ [];
  parameters =
      (text "hostpath", pool)
      ∷ (text "csi.storage.k8s.io/pvc/name", text "c")
      ∷ (text "csi.storage.k8s.io/pvc/namespace", text "d")
      ∷ [];
  volume_content_source = some (from_volume pvc);
}

request-IsServed : IsServed cluster Nodes request
unfolding get_node_conn new_grpc_connection get_node_addr get_node_ip address_of new_volume_params
    validate_volume_create_req lookup text list_beq
request-IsServed = record {
  annotations = _;
  node_name = node_name;
  addr = addr;
  valid = refl;
  named = refl;
  claimed = refl;
  selected = refl;
  reached = λ t. refl;
}

pool-IsName : IsName pool
unfolding list_beq components pool text
pool-IsName = (refl, refl)

other-IsName : IsName other
unfolding list_beq components text
other-IsName = (refl, refl)

-- The new volume has the 7 bytes of its source, and not the Mi that the response reports.
create_volume_copied_example :
    (d' : Files) × (nodes : Nodes) × (create_volume cluster (worker_connection plain) request served
      ≡ (ok (create_volume_response request node_name), (nodes, 3)))
    × (nodes addr ≡ quiet d')
    × ((a : Text) → (addr == a) ≡ false → nodes a ≡ quiet tree)
    × IsTidy plain pool d'
    × (view plain pool d'
        ≡ change other (some (to_proto (record volume { name = other }))) (view plain pool tree))
unfolding text list_beq to_lower lower new_volume_params lookup request request-IsServed plain
    get_rounded_capacity to_uint64 mul64 quot64 sub64 add64 view root components pvc-IsReadable
create_volume_copied_example =
    create_volume_copied cluster plain plain-IsLawful request pvc request-IsServed served tree
      (to_proto volume) (inr refl) refl pool-IsName other-IsName tree-IsTidy refl
      (view-readable plain pool tree pvc pvc-IsReadable pvc_there) refl
