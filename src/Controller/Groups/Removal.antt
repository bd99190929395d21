-- ===== src/Controller/Groups/Removal.antt =====
-- `DeleteVolumeGroupSnapshot` of pkg/driver/group_controller.go against `DeleteSnapshot`: its rounds
-- close their connections by hand, where the handler defers it.
use mathlib.Core.Path.{fun_ext}
use csi_hostpath.Base.{
  ◌≡◌, refl, ap, ◌∙◌, false, Option, none, some, List, [], ◌∷◌, ◌⊎◌, inl, inr, Text, Outcome, Exec,
  pure, or_fail, guard, not, ◌>>=◌, ◌>>◌, ◌==◌, nat_eq, list_eq, continue,
}
use csi_hostpath.Volume.{LogicalVolume}
use csi_hostpath.Client.{Connection}
use csi_hostpath.Cluster.{
  Cluster, get_vg_name_from_csi_pv, get_node_name_from_csi_pv, get_volume_snapshot_content,
}
use csi_hostpath.Controller.{
  Session, Code, internal, or_internal, call, closing, returned, get_node_conn,
}
use csi_hostpath.Controller.Snapshots.{delete_snapshot, dereference}
use csi_hostpath.Controller.Groups.{
  delete_member, delete_volume_group_snapshot, member_found, member_deleted, outcome,
}

-- `DeleteSnapshot` of one snapshot after the other, up to the first that returns an error
unfoldable pub delete_all :
    (K : Cluster) (conn : Connection) → List Text → Exec (Session conn.State) Code (Unit {0})
unfolding delete_snapshot
delete_all K conn [] = pure tt
delete_all K conn (id ∷ ids) = do delete_snapshot K conn id; delete_all K conn ids

abbrev pub AreNamed : List Text → Type 0
AreNamed [] = Unit
AreNamed (id ∷ ids) = ((id == []) ≡ false) × AreNamed ids

-- What has answered already, as a call
abbrev answered : {S A : Type 0} → Text ⊎ A → Exec (Session S) Text A
answered r s = (returned r, s)

deleted_lem :
    {S : Type 0} (r : Text ⊎ Unit {0}) (s : Session S)
    → (outcome (answered r) >>= member_deleted) s ≡ closing (or_internal (answered r)) s
deleted_lem (inl e) s = refl
deleted_lem (inr tt) s = refl

module _ (conn : Connection) (addr vg id : Text) where
  abbrev delete_seen : Option LogicalVolume → Exec (Session conn.State) Code (Unit {0})
  delete_seen found = elim found [
    | some _ ↦ or_internal (call (conn.delete_snapshot addr vg id))
    | none ↦ pure tt
  ]

  found_lem :
      (r : Text ⊎ Option LogicalVolume) (s : Session conn.State)
      → (outcome (answered r) >>= member_found conn addr vg id) s
        ≡ closing (or_internal (answered r) >>= delete_seen) s
  found_lem (inl e) s = refl
  found_lem (inr none) s = refl
  found_lem (inr (some v)) s =
      let answer = conn.delete_snapshot addr vg id s.0 in deleted_lem answer.0 (answer.1, s.1)

  rest_lem :
      (s : Session conn.State)
      → (outcome (call (conn.get_volume addr vg id)) >>= member_found conn addr vg id) s
        ≡ closing (or_internal (call (conn.get_volume addr vg id)) >>= delete_seen) s
  rest_lem s = let answer = conn.get_volume addr vg id s.0 in found_lem answer.0 (answer.1, s.1)

module _ (K : Cluster) (conn : Connection) where
  -- The lookups of a snapshot, its source, the group and the node, and what is done there
  abbrev looked_up :
      Text
      → (Text → Text → Exec (Session conn.State) Code (Unit {0}))
      → Exec (Session conn.State) Code (Unit {0})
  looked_up snapshot_id rest = do
    handle ← or_fail (get_volume_snapshot_content K snapshot_id) internal
    src_volume_id ← dereference handle
    pv ← or_fail (K.persistent_volume src_volume_id) internal
    let vg_name = get_vg_name_from_csi_pv pv
    guard (not (vg_name == [])) internal
    let node_name = get_node_name_from_csi_pv pv
    guard (not (node_name == [])) internal
    addr ← or_internal (get_node_conn K node_name)
    rest addr vg_name

  delete_member-delete_snapshot :
      (id : Text) (s : Session conn.State)
      → (id == []) ≡ false
      → delete_member K conn id s ≡ delete_snapshot K conn id s
  unfolding delete_member delete_snapshot
  delete_member-delete_snapshot id s named = rw named (
      ap (λ rest. looked_up id rest s)
        (fun_ext (λ addr. fun_ext (λ vg. fun_ext (λ t. rest_lem conn addr vg id t)))))

  -- For snapshots that have names, DeleteVolumeGroupSnapshot does what DeleteSnapshot does of one
  -- after the other, up to the first that returns an error or panics: it answers as the last of them,
  -- and leaves the nodes and the open connections as they do.
  pub delete_volume_group_snapshot-delete_all :
      (ids : List Text) (s : Session conn.State)
      → AreNamed ids
      → delete_volume_group_snapshot K conn ids s ≡ delete_all K conn ids s
  unfolding delete_volume_group_snapshot delete_all
  delete_volume_group_snapshot-delete_all [] s named = refl
  delete_volume_group_snapshot-delete_all (id ∷ ids) s (named, rest) =
      ap
        (λ (answer : Outcome Code (Unit {0}) × Session conn.State).
          continue answer.0 (λ _. delete_volume_group_snapshot K conn ids) answer.1)
        (delete_member-delete_snapshot id s named)
      ∙ ap
          (λ (k : Exec (Session conn.State) Code (Unit {0})).
            (delete_snapshot K conn id >>= λ _. k) s)
          (fun_ext (λ t. delete_volume_group_snapshot-delete_all ids t rest))
