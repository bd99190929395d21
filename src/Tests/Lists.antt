-- ===== src/Tests/Lists.antt =====
-- The handlers that read, on the cluster and the connection of the tests.
use csi_hostpath.Base.{
  Option, sym, ap, map, inl, inr, Bool-cases, ◌==◌, panic, ◌+◌, ◌≤◌, ◌≡◌, ◌≢◌, ◌↔◌, refl, ◌∙◌, none,
  some, List, [], ◌∷◌, Text, text, ok, err, list_eq, nat_eq, list_beq, length,
}
use csi_hostpath.Base.Dict.{Dict, lookup, insert}
use csi_hostpath.Volume.{LogicalVolume}
use csi_hostpath.Cluster.{
  PersistentVolume, address_of, get_node_addr, get_node_ip, get_node_name_from_csi_pv,
  get_vg_name_from_csi_pv,
}
use csi_hostpath.Controller.{Code, Session, get_node_conn, new_grpc_connection}
use csi_hostpath.Controller.Requests.{VolumeCapability, Snapshot, block}
use csi_hostpath.Controller.Checks.{AllWriters}
use csi_hostpath.Controller.Lists.{
  VolumeEntry, list_volumes, list_snapshots, collect, is_local_volume, get_all_pvs_of_local_csi,
  get_all_snapshot_content_of_local_csi, validate_volume_capabilities,
}
use csi_hostpath.Controller.Lists.Entries.{
  IsReached, Answers, answered, VisitsAll, list_volumes-lost,
}
use csi_hostpath.Controller.Nodes.Repeats.{get_volume_unchanged}
use csi_hostpath.Client.Remote.{Nodes, worker_connection}
use csi_hostpath.Client.Listing.{view}
use csi_hostpath.FileSystem.{components}
use csi_hostpath.HostPath.{root}
use csi_hostpath.Tests.Plain.{plain}
use csi_hostpath.Tests.Nodes.{tree, served, tree-IsGroup}
use csi_hostpath.Controller.Lists.Opened.{list_volumes_opened}
use csi_hostpath.Controller.Lists.Counted.{list_snapshots_opened}
use csi_hostpath.Controller.Lists.Wanted.{
  last_of, is_bound_volume, is_snapshot_content, local_objects_lem,
  validate_volume_capabilities_lem,
}
use csi_hostpath.Tests.Memory.{Memory, memory, cluster, some_pv, some_content, update, volume_of}

abbrev addr : Text
unfolding text
addr = text "1.2.3.4:9091"

abbrev pool : Text
unfolding text
pool = text "pool"

abbrev name : Text
unfolding text
name = text "pv"

abbrev some_volume : LogicalVolume
some_volume = volume_of pool name 5

abbrev nodes : Memory
nodes = update (addr ∷ pool ∷ name ∷ []) (some some_volume) (λ k. none)

abbrev start : Session Memory
start = (nodes, 3)

abbrev found : Dict Text PersistentVolume
found = (name, some_pv) ∷ []

found_test : get_all_pvs_of_local_csi cluster ≡ some found
unfolding get_all_pvs_of_local_csi collect is_local_volume insert text list_beq
found_test = refl

reached : IsReached cluster Nodes some_pv
unfolding text list_beq get_node_addr get_node_ip get_node_name_from_csi_pv get_vg_name_from_csi_pv
    get_node_conn new_grpc_connection lookup address_of
reached = record {
  addr = addr;
  source = _;
  has_source = refl;
  has_group = refl;
  has_node = refl;
  reached = λ t. refl;
}

-- The tree of the node has another volume.
some_volume_lost : Answers cluster (worker_connection plain) served.0 some_pv reached none
unfolding text list_beq reached addr get_vg_name_from_csi_pv lookup pool view components root
some_volume_lost = get_volume_unchanged plain addr pool name served.0 tree refl tree-IsGroup

some_same : {A : Type 0} {a b : A} → Path (Option A) (some a) (some b) → a ≡ b
some_same e = cc

cluster-VisitsAll : VisitsAll cluster
unfolding lookup text
cluster-VisitsAll [] k pv there = absurd cc
cluster-VisitsAll ((j, a) ∷ pvs) k pv there = elim (Bool-cases (j == k)) [
  | inl same ↦
      let at : some a ≡ some pv = sym (rw same refl) ∙ there in
      ([], map (λ e. e.1) pvs, ap (λ x. x ∷ map (λ e. e.1) pvs) (some_same at))
  | inr other ↦
      let (before, after, order) = cluster-VisitsAll pvs k pv (sym (rw other refl) ∙ there) in
      (a ∷ before, after, ap (λ l. a ∷ l) order)
]

list_volumes-lost_example : list_volumes cluster (worker_connection plain) served ≡ (panic, served)
unfolding text lookup list_beq name
list_volumes-lost_example =
    list_volumes-lost cluster (worker_connection plain) found served name some_pv reached
      cluster-VisitsAll found_test refl (answered reached none some_volume_lost, tt)
      some_volume_lost

list_volumes_opened_example :
    let run = list_volumes cluster memory start in
    (3 ≤ run.1.1)
    × (run.1.1 ≤ 3 + 1)
    × ((entries : List VolumeEntry) → run.0 ≡ ok entries → run.1.1 ≡ 3)
list_volumes_opened_example = list_volumes_opened cluster memory start

list_snapshots_opened_example :
    let run = list_snapshots cluster memory start in
    let contents = cluster.range_contents (get_all_snapshot_content_of_local_csi cluster) in
    ((c : Code) → run.0 ≢ err c)
    × ((entries : List Snapshot)
        → run.0 ≡ ok entries
        → (3 ≤ run.1.1) × (run.1.1 + length entries ≤ 3 + length contents))
    × (run.0 ≡ panic → (3 ≤ run.1.1) × (run.1.1 ≤ 3 + length contents))
list_snapshots_opened_example = list_snapshots_opened cluster memory start

local_objects_example :
    ((d : Dict Text PersistentVolume) × (get_all_pvs_of_local_csi cluster ≡ some d)
      × (lookup name d ≡ last_of is_bound_volume (λ pv. pv.name) name (some_pv ∷ [])))
    × (lookup name (get_all_snapshot_content_of_local_csi cluster)
        ≡ last_of is_snapshot_content (λ content. content.name) name (some_content ∷ []))
unfolding text
local_objects_example =
    local_objects_lem cluster (some_pv ∷ []) (some_content ∷ []) name refl refl refl

abbrev writer : VolumeCapability
writer = record { access_mode = some 1; access_type = block }

validate_volume_capabilities_example :
    (validate_volume_capabilities name (writer ∷ []) tt ≡ (ok (some (writer ∷ [])), tt))
    ↔ ((name ≢ []) × ((writer ∷ []) ≢ []) × AllWriters (writer ∷ []))
validate_volume_capabilities_example = validate_volume_capabilities_lem name (writer ∷ []) tt
