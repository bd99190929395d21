-- ===== src/Client/Groups.antt =====
-- What a change of one volume does to the other volumes of its group.
use csi_hostpath.Base.{
  ◌≡◌, ◌≢◌, refl, sym, ap, ◌∙◌, subst, false, none, some, [], ◌∷◌, ◌++◌, Text, text, ◌⊎◌, inl, inr,
  ◌==◌, nat_eq, list_eq, eq-eq, eq_refl, Bool-cases, Option-cases, has_prefix, has_prefix_cancel,
  append-nil, append_assoc, Option, if◌then◌else◌,
}
use csi_hostpath.Base.Dict.{lookup}
use csi_hostpath.FileSystem.{FilePath, dir, file, Files, IsName}
use csi_hostpath.FileSystem.Laws.{Kept, Kept-aside, Kept-dir}
use csi_hostpath.FileSystem.Unique.{IsUnique}
use csi_hostpath.Volume.{LogicalVolume, to_proto}
use csi_hostpath.Volume.Codec.{Codec}
use csi_hostpath.HostPath.Keys.{group_key, vol_key, vol_key-eq, meta_key, meta_key-eq}
use csi_hostpath.HostPath.Quiet.{get_vol_meta-quiet}
use csi_hostpath.Client.Listing.{IsGroup, IsReadable, IsReadable-read, view, view-readable}

-- The paths of a group for plain names
module _ (vg name : Text) (plain : IsName name) where
  pub vol_key-plain : vol_key vg name ≡ group_key vg ++ (name ∷ [])
  vol_key-plain = vol_key-eq vg name ∙ ap (λ q. group_key vg ++ q) plain.0

  pub meta_key-plain : meta_key vg name ≡ group_key vg ++ (name ∷ text "meta.json" ∷ [])
  meta_key-plain =
      meta_key-eq vg name
      ∙ ap (λ q. q ++ (text "meta.json" ∷ [])) vol_key-plain
      ∙ append_assoc (group_key vg) (name ∷ []) (text "meta.json" ∷ [])

module _ (vg name : Text) (plain : IsName name) (x : Text) (other : (name == x) ≡ false) where
  outside_below : (q : FilePath) → has_prefix (vol_key vg name) (group_key vg ++ (x ∷ q)) ≡ false
  unfolding has_prefix
  outside_below q =
      ap (λ p. has_prefix p (group_key vg ++ (x ∷ q))) (vol_key-plain vg name plain)
      ∙ has_prefix_cancel (group_key vg) (name ∷ []) (x ∷ q)
      ∙ rw other refl

  outside_meta : IsName x → has_prefix (vol_key vg name) (meta_key vg x) ≡ false
  unfolding has_prefix
  outside_meta named =
      ap (λ q. has_prefix q (meta_key vg x)) (vol_key-plain vg name plain)
      ∙ ap (has_prefix (group_key vg ++ (name ∷ []))) (meta_key-plain vg x named)
      ∙ has_prefix_cancel (group_key vg) (name ∷ []) (x ∷ text "meta.json" ∷ [])
      ∙ rw other refl

  differ_back : (x == name) ≡ false
  differ_back = elim (Bool-cases (x == name)) [
    | inl same ↦ cc (sym other ∙ ap (λ y. name == y) (eq-eq x name same) ∙ eq_refl name)
    | inr apart ↦ apart
  ]

  aside_below : (q : FilePath) → has_prefix (group_key vg ++ (x ∷ q)) (vol_key vg name) ≡ false
  unfolding has_prefix
  aside_below q =
      ap (has_prefix (group_key vg ++ (x ∷ q))) (vol_key-plain vg name plain)
      ∙ has_prefix_cancel (group_key vg) (x ∷ q) (name ∷ [])
      ∙ rw differ_back refl

  aside_meta : IsName x → has_prefix (meta_key vg x) (vol_key vg name) ≡ false
  unfolding has_prefix
  aside_meta named =
      ap (λ q. has_prefix q (vol_key vg name)) (meta_key-plain vg x named)
      ∙ ap (has_prefix (group_key vg ++ (x ∷ text "meta.json" ∷ []))) (vol_key-plain vg name plain)
      ∙ has_prefix_cancel (group_key vg) (x ∷ text "meta.json" ∷ []) (name ∷ [])
      ∙ rw differ_back refl

-- A change of one volume of a group
module _ (J : Codec) (vg name : Text) (plain : IsName name) (d d' : Files) where
  -- Outside the directory of the volume, only directories above it may have been made.
  abbrev pub IsLocal : Type 0
  IsLocal =
      (q : FilePath)
      → has_prefix (vol_key vg name) q ≡ false
      → Kept (vol_key vg name) q (lookup q d) (lookup q d')

  module _ (local : IsLocal) (x : Text) (other : (name == x) ≡ false) where
    -- At and below another name nothing changes.
    pub same_below :
        (q : FilePath) → lookup (group_key vg ++ (x ∷ q)) d' ≡ lookup (group_key vg ++ (x ∷ q)) d
    same_below q =
        Kept-aside (vol_key vg name) _ _ _ (aside_below vg name plain x other q)
          (local _ (outside_below vg name plain x other q))

    same_dir : lookup (group_key vg ++ (x ∷ [])) d' ≡ lookup (group_key vg ++ (x ∷ [])) d
    same_dir = same_below []

    same_held : (r : IsReadable J vg d x) → lookup (meta_key vg x) d' ≡ some (file r.bytes)
    same_held r =
        Kept-aside (vol_key vg name) _ _ _ (aside_meta vg name plain x other r.plain)
          (local _ (outside_meta vg name plain x other r.plain))
        ∙ r.held

    same-IsReadable : IsReadable J vg d x → IsReadable J vg d' x
    same-IsReadable r = record {
      plain = r.plain;
      bytes = r.bytes;
      meta = r.meta;
      held = same_held r;
      decodes = r.decodes;
      named = r.named;
    }

    pub same_view : IsGroup J vg d → view J vg d' x ≡ view J vg d x
    unfolding view
    same_view g = elim (Option-cases (lookup (group_key vg ++ (x ∷ [])) d)) [
      | inl missing ↦ rw (same_dir, missing) refl
      | inr (file b, e) ↦ rw (same_dir, e) refl
      | inr (dir, e) ↦
          let r = g.readable x e in
          let read' = get_vol_meta-quiet J vg x d' r.bytes (same_held r) r.decodes in
          rw (same_dir, e, IsReadable-read J vg d x r, read') refl
    ]

  -- The group stays readable where the volume that has changed is.
  pub IsGroup-local :
      IsGroup J vg d
      → IsLocal
      → IsUnique d'
      → ((lookup (group_key vg) d' ≡ some dir)
          ⊎ ((lookup (group_key vg) d' ≡ none)
              × ((x : Text) → lookup (group_key vg ++ (x ∷ [])) d' ≢ some dir)))
      → (lookup (group_key vg ++ (name ∷ [])) d' ≡ some dir → IsReadable J vg d' name)
      → IsGroup J vg d'
  IsGroup-local g local unique home own = record {
    unique = unique;
    home = home;
    readable = λ x e. elim (Bool-cases (name == x)) [
      | inl same ↦
          let at = eq-eq name x same in
          subst (IsReadable J vg d') at
            (own (subst (λ y. lookup (group_key vg ++ (y ∷ [])) d' ≡ some dir) (sym at) e))
      | inr other ↦ same-IsReadable local x other (g.readable x (sym (same_dir local x other) ∙ e))
    ];
  }

pub group-outside :
    (vg name : Text) → IsName name → has_prefix (vol_key vg name) (group_key vg) ≡ false
unfolding has_prefix
group-outside vg name plain =
    ap (λ q. has_prefix q (group_key vg)) (vol_key-plain vg name plain)
    ∙ ap (has_prefix (group_key vg ++ (name ∷ []))) (sym (append-nil (group_key vg)))
    ∙ has_prefix_cancel (group_key vg) (name ∷ []) []

-- What a call that works on one volume does to its group: the group can be read again, the volume
-- is `o` now, and all others are as they were.
pub record Changed (J : Codec) (vg name : Text) (plain : IsName name) (d d' : Files)
    (o : Option LogicalVolume) : Type 0 where
  pub group : IsGroup J vg d'
  pub views : (x : Text) → view J vg d' x ≡ (if name == x then o else view J vg d x)
  pub local : IsLocal J vg name plain d d'
  -- The volume is there, or nothing is left of it.
  pub own :
      (lookup (group_key vg ++ (name ∷ [])) d' ≡ some dir)
      ⊎ ((q : FilePath) → lookup (group_key vg ++ (name ∷ q)) d' ≡ none)

-- A volume that can be read has been put into its group.
pub Changed-there :
    (J : Codec) (vg name : Text) (plain : IsName name) (d d' : Files)
    → IsGroup J vg d
    → IsLocal J vg name plain d d'
    → IsUnique d'
    → lookup (group_key vg) d' ≡ some dir
    → (r : IsReadable J vg d' name) → lookup (group_key vg ++ (name ∷ [])) d' ≡ some dir
    → Changed J vg name plain d d' (some (to_proto r.meta))
Changed-there J vg name plain d d' g local unique home r there = record {
  group = IsGroup-local J vg name plain d d' g local unique (inl home) (λ _. r);
  views = λ x. elim (Bool-cases (name == x)) [
    | inl same ↦ rw same (
        subst (λ y. view J vg d' y ≡ some (to_proto r.meta)) (eq-eq name x same)
          (view-readable J vg d' name r there))
    | inr other ↦ rw other (same_view J vg name plain d d' local x other g)
  ];
  local = local;
  own = inl there;
}

-- The directory of a group with a volume in it is there, and stays.
pub group-there :
    (J : Codec) (vg name x : Text) (plain : IsName name) (d d' : Files)
    → IsGroup J vg d
    → IsLocal J vg name plain d d'
    → lookup (group_key vg ++ (x ∷ [])) d ≡ some dir
    → lookup (group_key vg) d' ≡ some dir
group-there J vg name x plain d d' g local there =
    Kept-dir (vol_key vg name) (group_key vg) _ _
      (local (group_key vg) (group-outside vg name plain))
      (elim g.home [ inl h ↦ h | inr (missing, empty) ↦ absurd (empty x there) ])
