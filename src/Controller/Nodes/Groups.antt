-- ===== src/Controller/Nodes/Groups.antt =====
-- `DeleteVolumeGroupSnapshot` over the connection that calls the services of the nodes.
use csi_hostpath.Base.{
  ◌≡◌, refl, ap, ◌∙◌, subst, Bool, false, none, some, List, [], ◌∷◌, Text, ok, inl, inr, ◌==◌, ◌||◌,
  nat_eq, list_eq, Bool-cases, if◌then◌else◌, Outcome, Exec, continue,
}
use csi_hostpath.FileSystem.{Files, quiet, IsName}
use csi_hostpath.Volume.Codec.{Codec}
use csi_hostpath.Client.Remote.{Nodes, worker_connection}
use csi_hostpath.Client.Listing.{IsGroup, view}
use csi_hostpath.Cluster.{Cluster, get_vg_name_from_csi_pv, get_volume_snapshot_content}
use csi_hostpath.Controller.{Session, Code}
use csi_hostpath.Controller.Snapshots.{delete_snapshot}
use csi_hostpath.Controller.Groups.{delete_volume_group_snapshot}
use csi_hostpath.Controller.Groups.Removal.{
  delete_all, AreNamed, delete_volume_group_snapshot-delete_all,
}
use csi_hostpath.Controller.Nodes.{IsPlaced}
use csi_hostpath.Controller.Nodes.Removals.{delete_snapshot_removed}

-- A snapshot with a plain name, whose content names a source volume that has this group and a node
-- that can be reached at this address
pub record IsMember (K : Cluster) (vg addr id : Text) : Type 0 where
  pub source : Text
  pub placed : IsPlaced K Nodes source
  pub at : placed.addr ≡ addr
  pub within : get_vg_name_from_csi_pv placed.pv ≡ vg
  pub named : (id == []) ≡ false
  pub known : get_volume_snapshot_content K id ≡ some (some source)
  pub plain : IsName id

abbrev pub AreMembers : Cluster → Text → Text → List Text → Type 0
AreMembers K vg addr [] = Unit
AreMembers K vg addr (id ∷ ids) = IsMember K vg addr id × AreMembers K vg addr ids

abbrev pub is_among : List Text → Text → Bool
is_among [] x = false
is_among (id ∷ ids) x = id == x || is_among ids x

-- A handler that returns, and takes volumes out of a group on one node
abbrev pub Removes :
    Codec
    → Text
    → Text
    → (Text → Bool)
    → Exec (Session Nodes) Code (Unit {0})
    → Session Nodes
    → Files
    → Type 0
Removes J vg addr gone m s d =
    (d' : Files) × (nodes : Nodes) × (m s ≡ (ok tt, (nodes, s.1)))
    × (nodes addr ≡ quiet d')
    × ((a : Text) → (addr == a) ≡ false → nodes a ≡ s.0 a)
    × IsGroup J vg d'
    × ((x : Text) → view J vg d' x ≡ (if gone x then none else view J vg d x))

members-AreNamed :
    (K : Cluster) (vg addr : Text) (ids : List Text) → AreMembers K vg addr ids → AreNamed ids
members-AreNamed K vg addr [] h = tt
members-AreNamed K vg addr (id ∷ ids) (m, h) = (m.named, members-AreNamed K vg addr ids h)

module _ (K : Cluster) (J : Codec) (vg addr : Text) where
  delete_snapshot-Removes :
      (id : Text) (m : IsMember K vg addr id) (s : Session Nodes) (d : Files)
      → s.0 addr ≡ quiet d
      → IsGroup J vg d
      → Removes J vg addr (λ x. id == x) (delete_snapshot K (worker_connection J) id) s d
  delete_snapshot-Removes id m s d =
      subst
        (λ a.
          s.0 a ≡ quiet d
          → IsGroup J vg d
          → Removes J vg a (λ x. id == x) (delete_snapshot K (worker_connection J) id) s d)
        m.at
        (subst
          (λ g.
            s.0 m.placed.addr ≡ quiet d
            → IsGroup J g d
            → Removes J g m.placed.addr (λ x. id == x) (delete_snapshot K (worker_connection J) id)
                s d)
          m.within
          (λ at g.
            delete_snapshot_removed K J id m.source m.placed s d m.named m.known at m.plain g))

  delete_all-Removes :
      (ids : List Text) (s : Session Nodes) (d : Files)
      → AreMembers K vg addr ids
      → s.0 addr ≡ quiet d
      → IsGroup J vg d
      → Removes J vg addr (is_among ids) (delete_all K (worker_connection J) ids) s d
  unfolding delete_all
  delete_all-Removes [] s d h at g = (d, s.0, refl, at, λ a other. refl, g, λ x. refl)
  delete_all-Removes (id ∷ ids) s d (m, h) at g =
      let (d1, nodes1, run1, at1, apart1, g1, views1) = delete_snapshot-Removes id m s d at g in
      let (d2, nodes2, run2, at2, apart2, g2, views2) =
        delete_all-Removes ids (nodes1, s.1) d1 h at1 g1 in
      (
        d2,
        nodes2,
        ap
              (λ (r : Outcome Code (Unit {0}) × Session Nodes).
                continue r.0 (λ _. delete_all K (worker_connection J) ids) r.1)
              run1
            ∙ run2,
        at2,
        λ a other. apart2 a other ∙ apart1 a other,
        g2,
        λ x. elim (Bool-cases (is_among ids x)) [
          | inl later ↦ elim (Bool-cases (id == x)) [
            | inl now ↦ views2 x ∙ rw (later, now) refl
            | inr other ↦ views2 x ∙ rw (later, other) refl
          ]
          | inr never ↦ elim (Bool-cases (id == x)) [
            | inl now ↦ views2 x ∙ rw never (views1 x ∙ rw now refl)
            | inr other ↦ views2 x ∙ rw never (views1 x ∙ rw other refl)
          ]
        ],
      )

  -- `DeleteVolumeGroupSnapshot` of snapshots with plain names, whose contents name source volumes
  -- with one group and one node that can be reached, where no call on the node fails and the volumes
  -- of the group can be read, returns, whether the snapshots are there or not; the group no longer
  -- has any of them and can be read again, and all other volumes of the group, all other nodes and
  -- the number of open connections are as before.
  pub delete_volume_group_snapshot_removed :
      (ids : List Text) (s : Session Nodes) (d : Files)
      → AreMembers K vg addr ids
      → s.0 addr ≡ quiet d
      → IsGroup J vg d
      → (d' : Files) × (nodes : Nodes) × (delete_volume_group_snapshot K (worker_connection J) ids s
          ≡ (ok tt, (nodes, s.1)))
        × (nodes addr ≡ quiet d')
        × ((a : Text) → (addr == a) ≡ false → nodes a ≡ s.0 a)
        × IsGroup J vg d'
        × ((x : Text) → view J vg d' x ≡ (if is_among ids x then none else view J vg d x))
  delete_volume_group_snapshot_removed ids s d h at g =
      let (d', nodes, run, there, apart, group, views) = delete_all-Removes ids s d h at g in
      let same =
        delete_volume_group_snapshot-delete_all K (worker_connection J) ids s
          (members-AreNamed K vg addr ids h) in
      (d', nodes, same ∙ run, there, apart, group, views)
