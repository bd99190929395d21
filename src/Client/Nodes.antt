-- ===== src/Client/Nodes.antt =====
-- The calls of a connection on a node where no call fails, seen as operations on the volumes of a group.
use csi_hostpath.Base.{
  ℕ, ◌≡◌, ◌≢◌, refl, sym, ap, ◌∙◌, subst, Bool, true, false, Option, none, some, List, [], ◌∷◌,
  ◌++◌, Text, ok, ◌⊎◌, inl, inr, ◌==◌, nat_eq, list_eq, list_beq, eq-eq, Bool-cases, if◌then◌else◌,
  has_prefix, has_prefix-append, append_assoc,
}
use csi_hostpath.Base.Dict.{lookup}
use csi_hostpath.FileSystem.{FilePath, Node, dir, Files, quiet, IsName, system_call, erase_below}
use csi_hostpath.FileSystem.Laws.{Kept, lookup-erase_below}
use csi_hostpath.FileSystem.Unique.{IsUnique, erase_below-IsUnique}
use csi_hostpath.FileSystem.Quiet.{remove_all-quiet}
use csi_hostpath.Volume.{to_proto}
use csi_hostpath.Volume.Codec.{Codec, IsLawful}
use csi_hostpath.HostPath.{new_vol, vol_path}
use csi_hostpath.HostPath
use csi_hostpath.HostPath.Frame.{commands_spare}
use csi_hostpath.HostPath.Keys.{group_key, vol_key, meta_key}
use csi_hostpath.HostPath.Lifecycle.{IsFree, create_vol-held, expand_vol-held}
use csi_hostpath.HostPath.Unique.{create_vol-KeepsUnique, expand_vol-KeepsUnique}
use csi_hostpath.Service
use csi_hostpath.Client.Groups.{
  vol_key-plain, IsLocal, same_view, IsGroup-local, group-outside, Changed, Changed-there,
  group-there,
}
use csi_hostpath.Client.Listing.{IsGroup, IsReadable, view, view-missing, list_vol-view}
use csi_hostpath.Client.Remote.{
  expand_volume, get_volume, create_volume, delete_volume, delete_snapshot,
}

-- Where no call fails and the volumes of the group can be read, `GetVolume` returns what the tree
-- has under that name.
pub get_volume-view :
    (J : Codec) (vg name : Text) (d : Files)
    → IsGroup J vg d
    → get_volume J vg name (quiet d) ≡ (ok (view J vg d name), quiet d)
unfolding get_volume system_call Service.list_vol
get_volume-view J vg name d g =
    let (vols, run, found) = list_vol-view J vg d g in
    rw run (ap (λ o. (ok o, quiet d)) (found name))

not_erased : (b : Bool) (o : Option Node) → (if b then none else o) ≡ some dir → o ≡ some dir
not_erased true o h = absurd cc
not_erased false o h = h

module _ (J : Codec) (vg name : Text) (plain : IsName name) (d : Files) where
  -- The tree without the volume's directory
  abbrev erased : Files
  erased = erase_below (vol_key vg name) d

  erased-Changed : IsGroup J vg d → Changed J vg name plain d erased none
  erased-Changed g = record {
    group =
        IsGroup-local J vg name plain d erased g local
          (erase_below-IsUnique (vol_key vg name) d g.unique) home
          (λ e. absurd (cc (sym (gone []) ∙ e)));
    views = λ x. elim (Bool-cases (name == x)) [
      | inl same ↦ rw same (
          subst (λ y. view J vg erased y ≡ none) (eq-eq name x same)
            (view-missing J vg erased name (gone [])))
      | inr other ↦ rw other (same_view J vg name plain d erased local x other g)
    ];
    local = local;
    own = inr gone;
  }
    where
      at :
          (q : FilePath)
          → lookup q erased ≡ (if has_prefix (vol_key vg name) q then none else lookup q d)
      at q = lookup-erase_below (vol_key vg name) q d

      local : IsLocal J vg name plain d erased
      local q o = inl (at q ∙ rw o refl)

      gone : (q : FilePath) → lookup (group_key vg ++ (name ∷ q)) erased ≡ none
      gone q =
          at (group_key vg ++ (name ∷ q))
          ∙ rw
              (ap (has_prefix (vol_key vg name)) (
                  sym (append_assoc (group_key vg) (name ∷ []) q)
                  ∙ ap (λ p. p ++ q) (sym (vol_key-plain vg name plain)))
                ∙ has_prefix-append (vol_key vg name) q)
              refl

      home :
          (lookup (group_key vg) erased ≡ some dir)
          ⊎ ((lookup (group_key vg) erased ≡ none)
              × ((x : Text) → lookup (group_key vg ++ (x ∷ [])) erased ≢ some dir))
      home =
          let kept = at (group_key vg) ∙ rw (group-outside vg name plain) refl in
          elim g.home [
            | inl there ↦ inl (kept ∙ there)
            | inr (missing, empty) ↦
                inr (kept ∙ missing, λ x e. empty x (not_erased _ _ (sym (at _) ∙ e)))
          ]

  -- The tree after a volume, and a snapshot, has been removed
  pub delete_volume-held :
      IsGroup J vg d
      → (d' : Files) × (delete_volume J vg name (quiet d) ≡ (ok tt, quiet d'))
        × Changed J vg name plain d d' none
  unfolding delete_volume system_call Service.remove_vol HostPath.remove_vol
  delete_volume-held g = (erased, rw (remove_all-quiet (vol_path vg name) d) refl, erased-Changed g)

  pub delete_snapshot-held :
      IsGroup J vg d
      → (d' : Files) × (delete_snapshot J vg name (quiet d) ≡ (ok tt, quiet d'))
        × Changed J vg name plain d d' none
  unfolding delete_snapshot system_call Service.remove_snapshot HostPath.remove_snapshot
  delete_snapshot-held g =
      (erased, rw (remove_all-quiet (vol_path vg name) d) refl, erased-Changed g)

  -- Where no call fails, the volumes of the group can be read and the name is plain,
  -- `DeleteVolume` returns, and takes the volume out of the group; the group can be read again,
  -- and all others stay as they are.
  pub delete_volume-view :
      IsGroup J vg d
      → (d' : Files) × (delete_volume J vg name (quiet d) ≡ (ok tt, quiet d'))
        × IsGroup J vg d'
        × ((x : Text) → view J vg d' x ≡ (if name == x then none else view J vg d x))
  delete_volume-view g = let (d', run, c) = delete_volume-held g in (d', run, c.group, c.views)

  -- The tree after a volume has been made
  pub create_volume-held :
      IsLawful J
      → (size : ℕ) (tags : List Text) → IsGroup J vg d
      → IsFree vg name d
      → lookup (meta_key vg name) d ≡ none
      → J.IsEncodable (new_vol J vg name size)
      → (d' : Files) × (create_volume J
            (record {
              volume_group = vg;
              name = name;
              size = size;
              tags = tags;
              clone_name = [];
              snapshot_name = [];
            })
            (quiet d)
          ≡ (ok name, quiet d'))
        × Changed J vg name plain d d' (some (to_proto (new_vol J vg name size)))
  unfolding create_volume system_call Service.create_vol Service.create_command list_beq
  create_volume-held L size tags g free missing enc =
      let (d', run, held, home, group) = create_vol-held J L vg name d size free missing in
      let there : lookup (group_key vg ++ (name ∷ [])) d' ≡ some dir =
        ap (λ q. lookup q d') (sym (vol_key-plain vg name plain)) ∙ home in
      let own : IsReadable J vg d' name = record {
        plain = plain;
        bytes = J.marshal (new_vol J vg name size);
        meta = new_vol J vg name size;
        held = held;
        decodes = L.round_trip (new_vol J vg name size) enc;
        named = refl;
      } in
      let local : IsLocal J vg name plain d d' = λ q o.
        subst (λ w. Kept (vol_key vg name) q (lookup q d) (lookup q w.files)) (ap (λ r. r.1) run)
          (commands_spare J vg name (quiet d) q size o).0 in
      let unique : IsUnique d' =
        subst (λ w. IsUnique w.files) (ap (λ r. r.1) run)
          ((create_vol-KeepsUnique J vg name size).at (quiet d) g.unique) in
      (d', rw run refl, Changed-there J vg name plain d d' g local unique group own there)

  -- Where no call fails, the volumes of the group can be read, the name is plain, nothing stands
  -- in the way, there is no metadata yet and the new record can be encoded, `CreateVolume` with
  -- neither a snapshot nor a source returns the name, and puts the volume into the group; the
  -- group can be read again, and all others stay as they are.
  pub create_volume-view :
      IsLawful J
      → (size : ℕ) (tags : List Text) → IsGroup J vg d
      → IsFree vg name d
      → lookup (meta_key vg name) d ≡ none
      → J.IsEncodable (new_vol J vg name size)
      → (d' : Files) × (create_volume J
            (record {
              volume_group = vg;
              name = name;
              size = size;
              tags = tags;
              clone_name = [];
              snapshot_name = [];
            })
            (quiet d)
          ≡ (ok name, quiet d'))
        × IsGroup J vg d'
        × ((x : Text)
            → view J vg d' x
              ≡ (if name == x then some (to_proto (new_vol J vg name size)) else view J vg d x))
  create_volume-view L size tags g free missing enc =
      let (d', run, c) = create_volume-held L size tags g free missing enc in
      (d', run, c.group, c.views)

  -- The tree after the size of a volume has been changed
  pub expand_volume-held :
      IsLawful J
      → (size : ℕ) → IsGroup J vg d
      → (r : IsReadable J vg d name) → lookup (group_key vg ++ (name ∷ [])) d ≡ some dir
      → J.IsEncodable (record r.meta { size = size })
      → (d' : Files) × (expand_volume J vg name size (quiet d) ≡ (ok tt, quiet d'))
        × Changed J vg name plain d d' (some (to_proto (record r.meta { size = size })))
  unfolding expand_volume system_call Service.expand_vol
  expand_volume-held L size g r there enc =
      let v = record r.meta { size = size } in
      let home : lookup (vol_key vg name) d ≡ some dir =
        ap (λ q. lookup q d) (vol_key-plain vg name plain) ∙ there in
      let (d', run, held, home') =
        expand_vol-held J L vg name d size r.bytes r.meta home r.held r.decodes in
      let there' : lookup (group_key vg ++ (name ∷ [])) d' ≡ some dir =
        ap (λ q. lookup q d') (sym (vol_key-plain vg name plain)) ∙ home' in
      let own : IsReadable J vg d' name = record {
        plain = plain;
        bytes = J.marshal v;
        meta = v;
        held = held;
        decodes = L.round_trip v enc;
        named = r.named;
      } in
      let local : IsLocal J vg name plain d d' = λ q o.
        subst (λ w. Kept (vol_key vg name) q (lookup q d) (lookup q w.files)) (ap (λ x. x.1) run)
          (commands_spare J vg name (quiet d) q size o).1 in
      let unique : IsUnique d' =
        subst (λ w. IsUnique w.files) (ap (λ x. x.1) run)
          ((expand_vol-KeepsUnique J vg name size).at (quiet d) g.unique) in
      let group = group-there J vg name name plain d d' g local there in
      (d', rw run refl, Changed-there J vg name plain d d' g local unique group own there')

  -- Where no call fails, the volumes of the group can be read and the new record can be encoded,
  -- `ExpandVolume` of a volume that is there returns, and changes its size; the group can be read
  -- again, and all others stay as they are.
  pub expand_volume-view :
      IsLawful J
      → (size : ℕ) → IsGroup J vg d
      → (r : IsReadable J vg d name) → lookup (group_key vg ++ (name ∷ [])) d ≡ some dir
      → J.IsEncodable (record r.meta { size = size })
      → (d' : Files) × (expand_volume J vg name size (quiet d) ≡ (ok tt, quiet d'))
        × IsGroup J vg d'
        × ((x : Text)
            → view J vg d' x ≡ (
                if name == x
                then some (to_proto (record r.meta { size = size }))
                else view J vg d x))
  expand_volume-view L size g r there enc =
      let (d', run, c) = expand_volume-held L size g r there enc in (d', run, c.group, c.views)
