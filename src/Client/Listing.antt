-- ===== src/Client/Listing.antt =====
-- What `ListVol` returns of a group on a node where no system call fails, and what `GetVolume` finds in
-- it.
use csi_hostpath.Base.{
  ◌≡◌, ◌≢◌, refl, ap, ◌∙◌, subst, true, false, Option, none, some, List, [], ◌∷◌, ◌++◌, map, Text,
  Outcome, ok, err, panic, ◌⊎◌, inl, inr, ◌==◌, nat_eq, list_eq, eq-eq, Bool-cases, Option-cases,
  if◌then◌else◌,
}
use csi_hostpath.Base.Dict.{lookup}
use csi_hostpath.FileSystem.{Node, dir, file, Files, quiet, IsName, children}
use csi_hostpath.FileSystem.Unique.{IsUnique}
use csi_hostpath.FileSystem.Entries.{is_dir, has_dir, has_dir-children, AllDirs, AllDirs-children}
use csi_hostpath.FileSystem.Quiet.{open-quiet_missing, read_dir-quiet}
use csi_hostpath.Volume.{Vol, LogicalVolume, to_proto}
use csi_hostpath.Volume.Codec.{Codec}
use csi_hostpath.HostPath.{get_vol_meta, list_entries, list_vol, group_path}
use csi_hostpath.HostPath.Keys.{group_key, meta_key}
use csi_hostpath.HostPath.Quiet.{get_vol_meta-quiet}
use csi_hostpath.Client.{find_volume}

abbrev view_of : Outcome Text Vol → Option LogicalVolume
view_of (ok v) = some (to_proto v)
view_of (err e) = none
view_of panic = none

module _ (J : Codec) (vg : Text) (d : Files) where
  -- A volume whose metadata can be read, and have the name of its directory
  pub record IsReadable (name : Text) : Type 0 where
    pub plain : IsName name
    pub bytes : Text
    pub meta : Vol
    pub held : lookup (meta_key vg name) d ≡ some (file bytes)
    pub decodes : J.unmarshal bytes ≡ ok meta
    pub named : meta.name ≡ name

  -- The volume of a name, as a tree of files has it
  unfoldable pub view : Text → Option LogicalVolume
  view name =
      if is_dir (lookup (group_key vg ++ (name ∷ [])) d)
      then view_of (get_vol_meta J vg name (quiet d)).0
      else none

  -- A group that is there, or is not there yet, with volumes that can be read
  pub record IsGroup : Type 0 where
    pub unique : IsUnique d
    pub home :
        (lookup (group_key vg) d ≡ some dir)
        ⊎ ((lookup (group_key vg) d ≡ none)
            × ((name : Text) → lookup (group_key vg ++ (name ∷ [])) d ≢ some dir))
    pub readable :
        (name : Text) → lookup (group_key vg ++ (name ∷ [])) d ≡ some dir → IsReadable name

  pub IsReadable-read :
      (name : Text) (r : IsReadable name) → get_vol_meta J vg name (quiet d) ≡ (ok r.meta, quiet d)
  IsReadable-read name r = get_vol_meta-quiet J vg name d r.bytes r.held r.decodes

  pub view-missing :
      (name : Text) → lookup (group_key vg ++ (name ∷ [])) d ≡ none → view name ≡ none
  unfolding view
  view-missing name e = rw e refl

  pub view-readable :
      (name : Text) (r : IsReadable name)
      → lookup (group_key vg ++ (name ∷ [])) d ≡ some dir
      → view name ≡ some (to_proto r.meta)
  unfolding view
  view-readable name r e = rw (e, IsReadable-read name r) refl

  volumes : (es : List (Text × Node)) → AllDirs IsReadable es → List Vol
  volumes [] a = []
  volumes ((x, file b) ∷ es) a = volumes es a
  volumes ((x, dir) ∷ es) a = a.0.meta ∷ volumes es a.1

  list_entries-readable :
      (es : List (Text × Node)) (a : AllDirs IsReadable es)
      → list_entries J vg es (quiet d) ≡ (ok (volumes es a), quiet d)
  unfolding list_entries volumes
  list_entries-readable [] a = refl
  list_entries-readable ((x, file b) ∷ es) a = list_entries-readable es a
  list_entries-readable ((x, dir) ∷ es) a =
      rw (IsReadable-read x a.0, list_entries-readable es a.1) refl

  find-volumes :
      (name : Text) (es : List (Text × Node)) (a : AllDirs IsReadable es)
      → find_volume name (map to_proto (volumes es a))
        ≡ (if has_dir name es then view_of (get_vol_meta J vg name (quiet d)).0 else none)
  unfolding find_volume volumes has_dir
  find-volumes name [] a = refl
  find-volumes name ((x, file b) ∷ es) a = find-volumes name es a
  find-volumes name ((x, dir) ∷ es) a = elim (Bool-cases (x == name)) [
    | inl same ↦
        let run : get_vol_meta J vg name (quiet d) ≡ (ok a.0.meta, quiet d) =
          subst (λ y. get_vol_meta J vg y (quiet d) ≡ (ok a.0.meta, quiet d)) (eq-eq x name same)
            (IsReadable-read x a.0) in
        let hit : (a.0.meta.name == name) ≡ true = ap (λ y. y == name) a.0.named ∙ same in
        rw (hit, same, run) refl
    | inr other ↦
        let miss : (a.0.meta.name == name) ≡ false = ap (λ y. y == name) a.0.named ∙ other in
        rw (miss, other) (find-volumes name es a.1)
  ]

  -- `ListVol` returns volumes among which each name finds what the tree has.
  pub list_vol-view :
      IsGroup
      → (vols : List Vol) × (list_vol J vg (quiet d) ≡ (ok vols, quiet d))
        × ((name : Text) → find_volume name (map to_proto vols) ≡ view name)
  unfolding list_vol view find_volume
  list_vol-view g = elim g.home [
    | inl there ↦
        let a = AllDirs-children IsReadable (group_key vg) d g.unique g.readable in
        (
          volumes (children (group_key vg) d) a,
          listed there a,
          λ name.
              find-volumes name (children (group_key vg) d) a
              ∙ rw (has_dir-children (group_key vg) name d g.unique) refl,
        )
    | inr (missing, empty) ↦
        let (e, closed) = open-quiet_missing (group_path vg) d missing in
        ([], rw closed refl, λ name. nothing name (empty name))
  ]
    where
      listed :
          lookup (group_key vg) d ≡ some dir
          → (a : AllDirs IsReadable (children (group_key vg) d))
          → list_vol J vg (quiet d) ≡ (ok (volumes (children (group_key vg) d) a), quiet d)
      listed there a =
          let (o, r) = read_dir-quiet (group_path vg) d there in
          rw (o, r, list_entries-readable (children (group_key vg) d) a) refl

      nothing :
          (name : Text)
          → lookup (group_key vg ++ (name ∷ [])) d ≢ some dir
          → find_volume name [] ≡ view name
      nothing name h = elim (Option-cases (lookup (group_key vg ++ (name ∷ [])) d)) [
        | inl e ↦ rw e refl
        | inr (dir, e) ↦ absurd (h e)
        | inr (file b, e) ↦ rw e refl
      ]
