-- ===== src/Client/Tidy.antt =====
-- A tree in which every volume of a group can be read and nothing else stands in the group, so that
-- every other name is free. All calls keep it so.
use csi_hostpath.Base.{
  ◌≡◌, ◌≢◌, refl, sym, ap, ◌∙◌, subst, false, Option, none, some, [], ◌∷◌, ◌++◌, Text, text, inl,
  inr, ◌==◌, nat_eq, list_eq, eq-eq, Bool-cases, Option-cases, has_prefix, append_assoc, append-nil,
}
use csi_hostpath.Base.Dict.{lookup}
use csi_hostpath.FileSystem.{FilePath, dir, file, Files, IsName}
use csi_hostpath.FileSystem.Quiet.{IsClear, has_prefix_longer}
use csi_hostpath.Volume.{LogicalVolume, to_proto}
use csi_hostpath.Volume.Codec.{Codec}
use csi_hostpath.HostPath.Keys.{group_key, vol_key, meta_key, mount_key-plain}
use csi_hostpath.HostPath.Lifecycle.{IsFree}
use csi_hostpath.Client.Groups.{Changed, vol_key-plain, meta_key-plain, group-outside, same_below}
use csi_hostpath.Client.Listing.{IsGroup, IsReadable, view, view-missing, view-readable}

pub record IsTidy (J : Codec) (vg : Text) (d : Files) : Type 0 where
  pub group : IsGroup J vg d
  -- No file stands in the way to the group, or in the group.
  pub clear : IsClear [] (group_key vg) d
  pub plain : (x b : Text) → lookup (group_key vg ++ (x ∷ [])) d ≢ some (file b)
  -- Nothing is below a name that is not there.
  pub blank :
      (x : Text)
      → lookup (group_key vg ++ (x ∷ [])) d ≡ none
      → (q : FilePath) → lookup (group_key vg ++ (x ∷ q)) d ≡ none

IsClear-append :
    (above p q : FilePath) (d : Files)
    → IsClear above p d
    → IsClear (above ++ p) q d
    → IsClear above (p ++ q) d
IsClear-append above [] q d h k = subst (λ a. IsClear a q d) (append-nil above) k
IsClear-append above (c ∷ p) q d h k = (
  h.0,
  IsClear-append (above ++ (c ∷ [])) p q d h.1
      (subst (λ a. IsClear a q d) (sym (append_assoc above (c ∷ []) p)) k),
)

module _ (J : Codec) (vg name : Text) (d : Files) (t : IsTidy J vg d) where
  -- A volume that the view has can be read.
  pub readable-view :
      (v : LogicalVolume)
      → view J vg d name ≡ some v
      → (r : IsReadable J vg d name) × (lookup (group_key vg ++ (name ∷ [])) d ≡ some dir)
        × (v ≡ to_proto r.meta)
  readable-view v e = elim (Option-cases (lookup (group_key vg ++ (name ∷ [])) d)) [
    | inl missing ↦ absurd (cc (sym (view-missing J vg d name missing) ∙ e))
    | inr (file b, at) ↦ absurd (t.plain name b at)
    | inr (dir, at) ↦
        let r = t.group.readable name at in (r, at, cc (sym (view-readable J vg d name r at) ∙ e))
  ]

  -- A name that the view does not have is free.
  absent-view : view J vg d name ≡ none → lookup (group_key vg ++ (name ∷ [])) d ≡ none
  absent-view e = elim (Option-cases (lookup (group_key vg ++ (name ∷ [])) d)) [
    | inl missing ↦ missing
    | inr (file b, at) ↦ absurd (t.plain name b at)
    | inr (dir, at) ↦
        absurd (cc (sym (view-readable J vg d name (t.group.readable name at) at) ∙ e))
  ]

module _ (J : Codec) (vg name : Text) (plain : IsName name) (d : Files) (t : IsTidy J vg d) where
  blank-view :
      view J vg d name ≡ none → (q : FilePath) → lookup (group_key vg ++ (name ∷ q)) d ≡ none
  blank-view e = t.blank name (absent-view J vg name d t e)

  pub missing-view : view J vg d name ≡ none → lookup (meta_key vg name) d ≡ none
  missing-view e =
      ap (λ k. lookup k d) (meta_key-plain vg name plain) ∙ blank-view e (text "meta.json" ∷ [])

  pub IsFree-view : view J vg d name ≡ none → IsFree vg name d
  IsFree-view e = record {
    clear =
        subst (λ k. IsClear [] k d) (sym (vol_key-plain vg name plain))
          (IsClear-append [] (group_key vg) (name ∷ []) d t.clear (t.plain name, tt));
    clear_mount =
        subst (λ k. IsClear [] k d) (sym (mount_key-plain vg name plain.0))
          (IsClear-append [] (group_key vg) (name ∷ (text "mountpoint" ∷ [])) d t.clear
            (t.plain name, (λ b h. cc (sym below_it ∙ h), tt)));
    plain = λ h. cc (sym (missing-view e) ∙ h);
  }
    where
      below_it : lookup ((group_key vg ++ (name ∷ [])) ++ (text "mountpoint" ∷ [])) d ≡ none
      below_it =
          ap (λ k. lookup k d) (append_assoc (group_key vg) (name ∷ []) (text "mountpoint" ∷ []))
          ∙ blank-view e (text "mountpoint" ∷ [])

module _ (J : Codec) (vg name : Text) (plain : IsName name) (d d' : Files) (t : IsTidy J vg d)
    (o : Option LogicalVolume) (c : Changed J vg name plain d d' o) where
  outside_above : (p q : FilePath) → p ++ q ≡ group_key vg → has_prefix (vol_key vg name) p ≡ false
  outside_above p q e = elim (Bool-cases (has_prefix (vol_key vg name) p)) [
    | inl h ↦ cc (
        sym (group-outside vg name plain)
        ∙ ap (has_prefix (vol_key vg name)) (sym e)
        ∙ has_prefix_longer (vol_key vg name) p q h)
    | inr h ↦ h
  ]

  IsClear-Changed :
      (above cs : FilePath) → above ++ cs ≡ group_key vg → IsClear above cs d → IsClear above cs d'
  IsClear-Changed above [] e h = tt
  IsClear-Changed above (x ∷ cs) e h =
      let here = above ++ (x ∷ []) in
      let whole : here ++ cs ≡ group_key vg = append_assoc above (x ∷ []) cs ∙ e in
      (
        λ b at. elim (c.local here (outside_above here cs whole)) [
          | inl same ↦ h.0 b (sym same ∙ at)
          | inr (missing, made, way) ↦ cc
        ],
        IsClear-Changed here cs whole h.1,
      )

  -- A call on one volume keeps the group tidy.
  pub Changed-IsTidy : IsTidy J vg d'
  Changed-IsTidy = record {
    group = c.group;
    clear = IsClear-Changed [] (group_key vg) refl t.clear;
    plain = λ x b at. elim (Bool-cases (name == x)) [
      | inl same ↦
          let here =
            subst (λ y. lookup (group_key vg ++ (y ∷ [])) d' ≡ some (file b))
              (sym (eq-eq name x same)) at in
          elim c.own [ inl there ↦ cc (sym there ∙ here) | inr gone ↦ cc (sym (gone []) ∙ here) ]
      | inr other ↦ t.plain x b (sym (same_below J vg name plain d d' c.local x other []) ∙ at)
    ];
    blank = λ x missing q. elim (Bool-cases (name == x)) [
      | inl same ↦ elim c.own [
        | inl there ↦ absurd (
            cc (
              sym there
              ∙ ap (λ y. lookup (group_key vg ++ (y ∷ [])) d') (eq-eq name x same)
              ∙ missing))
        | inr gone ↦
            subst (λ y. lookup (group_key vg ++ (y ∷ q)) d' ≡ none) (eq-eq name x same) (gone q)
      ]
      | inr other ↦
          same_below J vg name plain d d' c.local x other q
          ∙ t.blank x (sym (same_below J vg name plain d d' c.local x other []) ∙ missing) q
    ];
  }

empty-IsClear : (above cs : FilePath) → IsClear above cs []
unfolding lookup
empty-IsClear above [] = tt
empty-IsClear above (c ∷ cs) = (λ x e. cc, empty-IsClear (above ++ (c ∷ [])) cs)

-- The tree with nothing in it
pub empty-IsTidy : (J : Codec) (vg : Text) → IsTidy J vg []
unfolding lookup
empty-IsTidy J vg = record {
  group = record { unique = tt; home = inr (refl, λ x e. cc); readable = λ x e. absurd cc };
  clear = empty-IsClear [] (group_key vg);
  plain = λ x b e. cc;
  blank = λ x h q. refl;
}
