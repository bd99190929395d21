-- ===== src/Tests/Memory.antt =====
-- A connection to nodes that are a map in memory, and a cluster of one node.
use csi_hostpath.Base.{
  ℕ, Option, none, some, List, [], ◌∷◌, true, Text, text, ◌⊎◌, inl, inr, ◌==◌, list_eq, nat_eq,
  if◌then◌else◌, map,
}
use csi_hostpath.Base.Int.{ℤ, pos}
use csi_hostpath.Volume.{LogicalVolume}
use csi_hostpath.Client.{Connection}
use csi_hostpath.Cluster.{
  local_provider, Cluster, VolumeSnapshotContent, PersistentVolume, vg_name_key,
  kubernetes_node_identity_key,
}

abbrev pub Memory : Type 0
Memory = List Text → Option LogicalVolume

abbrev pub update : List Text → Option LogicalVolume → Memory → Memory
update k o s = λ j. if k == j then o else s j

abbrev pub volume_of : Text → Text → ℕ → LogicalVolume
volume_of vg name size = record {
  volume_group = vg;
  name = name;
  size = size;
  clone_name = [];
  tags = [];
  snapshot_name = [];
  status = [];
}

abbrev pub copied : List Text → Option LogicalVolume → Text → Memory → (Text ⊎ ℤ) × Memory
copied k none snap s = (inl [], s)
copied k (some v) snap s = (inr (pos v.size), update k (some (record v { name = snap })) s)

abbrev pub resized : List Text → Option LogicalVolume → ℕ → Memory → (Text ⊎ Unit {0}) × Memory
resized k none size s = (inl [], s)
resized k (some v) size s = (inr tt, update k (some (record v { size = size })) s)

abbrev pub memory : Connection
memory = record {
  State = Memory;
  get_volume = λ addr vg id s. (inr (s (addr ∷ vg ∷ id ∷ [])), s);
  create_volume = λ addr o s. (
    inr o.name,
    update (addr ∷ o.volume_group ∷ o.name ∷ []) (some (volume_of o.volume_group o.name o.size)) s,
  );
  delete_volume = λ addr vg id s. (inr tt, update (addr ∷ vg ∷ id ∷ []) none s);
  create_snapshot =
      λ addr vg snap src s. copied (addr ∷ vg ∷ snap ∷ []) (s (addr ∷ vg ∷ src ∷ [])) snap s;
  delete_snapshot = λ addr vg snap s. (inr tt, update (addr ∷ vg ∷ snap ∷ []) none s);
  expand_volume =
      λ addr vg id size s. resized (addr ∷ vg ∷ id ∷ []) (s (addr ∷ vg ∷ id ∷ [])) size s;
}

abbrev pub node_name : Text
unfolding text
node_name = text "n1"

abbrev pub some_pv : PersistentVolume
unfolding text
some_pv = record {
  name = text "pv";
  csi = some (record {
    driver = local_provider;
    volume_handle = text "pv";
    volume_attributes = (vg_name_key, text "pool") ∷ [];
  });
  phase = text "Bound";
  encoded_size = 300;
  node_affinity =
      some (
        some
          (((record { key = kubernetes_node_identity_key; values = node_name ∷ [] }) ∷ []) ∷ []));
}

abbrev pub some_content : VolumeSnapshotContent
unfolding text
some_content = record {
  name = text "content";
  driver = local_provider;
  volume_handle = some (text "pv");
  snapshot_ref_name = text "snap";
  status = some (record { ready_to_use = some true; snapshot_handle = some (text "snap") });
}

abbrev pub cluster : Cluster
unfolding text
cluster = record {
  persistent_volume = λ id. some some_pv;
  has_client = true;
  read_persistent_volume = λ id. some some_pv;
  persistent_volumes = some (some_pv ∷ []);
  range_volumes = map (λ e. e.1);
  snapshot_contents = some (some_content ∷ []);
  range_contents = map (λ e. e.1);
  claim_annotations = λ ns name. some ((text "volume.kubernetes.io/selected-node", node_name) ∷ []);
  node = λ n. some ((record { type = text "InternalIP"; address = text "1.2.3.4" }) ∷ []);
  snapshot_content = λ id. some (some (text "pv"));
  parse_ip = λ t. some (record { is_v4 = true; string = t });
  dial = λ addr. none;
  now = pos 7;
  snapshot_prefix = [];
}
