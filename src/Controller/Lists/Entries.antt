-- ===== src/Controller/Lists/Entries.antt =====
-- What `ListVolumes` does where a node no longer has a volume.
use csi_hostpath.Base.{
  ℕ, ◌+◌, ◌-◌, ◌≡◌, refl, Option, none, some, List, [], ◌∷◌, ◌++◌, false, Text, nat_eq, list_eq,
  ◌==◌, inr, subst, ok, panic, arith, eq_refl,
}
use csi_hostpath.Base.Dict.{Dict, lookup}
use csi_hostpath.Volume.{LogicalVolume}
use csi_hostpath.Cluster.{
  Cluster, PersistentVolume, CsiSource, get_node_name_from_csi_pv, get_vg_name_from_csi_pv,
}
use csi_hostpath.Client.{Connection}
use csi_hostpath.Controller.{Session, get_node_conn}
use csi_hostpath.Controller.Lists.{
  list_volume, list_volumes, each, volume_entry, get_all_pvs_of_local_csi,
}

-- A volume of a group whose node can be reached
pub record IsReached (K : Cluster) (State : Type 0) (pv : PersistentVolume) : Type 0 where
  pub addr : Text
  pub source : CsiSource
  pub has_source : pv.csi ≡ some source
  pub has_group : (get_vg_name_from_csi_pv pv == []) ≡ false
  pub has_node : (get_node_name_from_csi_pv pv == []) ≡ false
  pub reached :
      (t : Session State)
      → get_node_conn K (get_node_name_from_csi_pv pv) t ≡ (ok addr, (t.0, t.1 + 1))

module _ (K : Cluster) (conn : Connection) (s : conn.State) where
  -- What the node of a volume answers, where asking leaves the nodes as they are
  abbrev pub Answers :
      (pv : PersistentVolume) → IsReached K conn.State pv → Option LogicalVolume → Type 0
  Answers pv r o = conn.get_volume r.addr (get_vg_name_from_csi_pv pv) pv.name s ≡ (inr o, s)

  -- A volume that a round of `ListVolumes` passes over or lists, or whose node no longer has it
  pub data IsAsked (pv : PersistentVolume) : Type 0 where
    skipped : get_vg_name_from_csi_pv pv ≡ [] → IsAsked pv
    answered :
        (r : IsReached K conn.State pv) (o : Option LogicalVolume) → Answers pv r o → IsAsked pv

  abbrev pub AreAsked : List PersistentVolume → Type 0
  AreAsked [] = Unit
  AreAsked (pv ∷ pvs) = IsAsked pv × AreAsked pvs

-- Go visits a map in some order: each of its values comes.
abbrev pub VisitsAll : Cluster → Type 0
VisitsAll K =
    (pvs : Dict Text PersistentVolume) (k : Text) (pv : PersistentVolume)
    → lookup k pvs ≡ some pv
    → (before : List PersistentVolume) × (after : List PersistentVolume) × (K.range_volumes pvs
        ≡ before ++ (pv ∷ after))

back : (n : ℕ) → n + 1 - 1 ≡ n
back n = omega arith

module _ (K : Cluster) (conn : Connection) where
  list_volume-skipped :
      (pv : PersistentVolume) (s : Session conn.State)
      → get_vg_name_from_csi_pv pv ≡ []
      → list_volume K conn pv s ≡ (ok none, s)
  unfolding list_volume
  list_volume-skipped pv s e = rw (e, eq_refl {A = Text} []) refl

  list_volume-listed :
      (pv : PersistentVolume) (s : Session conn.State) (r : IsReached K conn.State pv)
      (v : LogicalVolume)
      → Answers K conn s.0 pv r (some v)
      → list_volume K conn pv s ≡ (ok (some (volume_entry pv r.source v)), s)
  unfolding list_volume
  list_volume-listed pv s r v k =
      rw (r.has_group, r.has_node, r.reached s, k, r.has_source, back s.1) refl

  list_volume-lost :
      (pv : PersistentVolume) (s : Session conn.State) (r : IsReached K conn.State pv)
      → Answers K conn s.0 pv r none
      → list_volume K conn pv s ≡ (panic, s)
  unfolding list_volume
  list_volume-lost pv s r k = rw (r.has_group, r.has_node, r.reached s, k, back s.1) refl

  each-lost :
      (pvs : List PersistentVolume) (pv : PersistentVolume) (after : List PersistentVolume)
      (s : Session conn.State) (r : IsReached K conn.State pv)
      → AreAsked K conn s.0 (pvs ++ (pv ∷ after))
      → Answers K conn s.0 pv r none
      → each (list_volume K conn) (pvs ++ (pv ∷ after)) s ≡ (panic, s)
  unfolding each
  each-lost [] pv after s r a k = rw (list_volume-lost pv s r k) refl
  each-lost (p ∷ pvs) pv after s r (skipped e, a) k =
      rw (list_volume-skipped p s e, each-lost pvs pv after s r a k) refl
  each-lost (p ∷ pvs) pv after s r (answered q (some v) b, a) k =
      rw (list_volume-listed p s q v b, each-lost pvs pv after s r a k) refl
  each-lost (p ∷ pvs) pv after s r (answered q none b, a) k = rw (list_volume-lost p s q b) refl

  -- Where Go visits every volume of the map, the nodes of all that have a group can be reached and
  -- answer what they have, and the node of one of them no longer has it, `ListVolumes` panics, in
  -- whatever order the volumes are visited, and leaves the nodes and the connections as they were.
  pub list_volumes-lost :
      (pvs : Dict Text PersistentVolume) (s : Session conn.State) (k : Text) (pv : PersistentVolume)
      (r : IsReached K conn.State pv)
      → VisitsAll K
      → get_all_pvs_of_local_csi K ≡ some pvs
      → lookup k pvs ≡ some pv
      → AreAsked K conn s.0 (K.range_volumes pvs)
      → Answers K conn s.0 pv r none
      → list_volumes K conn s ≡ (panic, s)
  unfolding list_volumes
  list_volumes-lost pvs s k pv r visits e there a lost =
      let (before, after, order) = visits pvs k pv there in
      rw (e, order) (each-lost before pv after s r (subst (AreAsked K conn s.0) order a) lost)
