-- ===== src/Client/Requests.antt =====
-- Sequences of calls over a connection to a node where no call fails, against the volumes of a group as
-- a function from names: whatever the calls, each that makes sense returns, and the group stays tidy.
use mathlib.Core.Path.{fun_ext}
use csi_hostpath.Base.{
  ℕ, ◌≡◌, refl, sym, ap, ◌∙◌, subst, Option, none, some, List, [], ◌∷◌, ◌++◌, Text, ok, pure, ◌>>◌,
  ◌==◌, nat_eq, list_eq, if◌then◌else◌,
}
use csi_hostpath.Base.Dict.{lookup}
use csi_hostpath.FileSystem.{dir, Files, quiet, IsName, Os}
use csi_hostpath.Volume.{Vol, LogicalVolume, to_proto}
use csi_hostpath.Volume.Codec.{Codec, IsLawful}
use csi_hostpath.HostPath.{new_vol}
use csi_hostpath.HostPath.Keys.{group_key}
use csi_hostpath.Client.{no_options}
use csi_hostpath.Client.Remote.{
  create_volume, delete_volume, expand_volume, create_snapshot, delete_snapshot,
}
use csi_hostpath.Client.Groups.{Changed}
use csi_hostpath.Client.Listing.{IsReadable, view}
use csi_hostpath.Client.Nodes.{
  create_volume-held, delete_volume-held, delete_snapshot-held, expand_volume-held,
}
use csi_hostpath.Client.Copies.{create_snapshot-held, restored_volume-held, cloned_volume-held}
use csi_hostpath.Client.Tidy.{IsTidy, readable-view, missing-view, IsFree-view, Changed-IsTidy}

-- The calls of a connection that change a node
pub data Request : Type 0 where
  create : Text → ℕ → Request
  restore : Text → Text → ℕ → Request
  clone : Text → Text → ℕ → Request
  remove : Text → Request
  expand : Text → ℕ → Request
  snapshot : Text → Text → Request
  remove_snapshot : Text → Request

-- The volumes of a group by their names
abbrev pub Group : Type 0
Group = Text → Option LogicalVolume

-- The record of which a message is made
abbrev pub vol_of : LogicalVolume → Vol
vol_of v = record {
  name = v.name;
  size = v.size;
  tags = v.tags;
  vg_name = v.volume_group;
  status = v.status;
  snapshot_name = v.snapshot_name;
  clone_name = v.clone_name;
}

abbrev pub change : Text → Option LogicalVolume → Group → Group
change name o g = λ x. if name == x then o else g x

abbrev pub renamed : Text → Option LogicalVolume → Option LogicalVolume
renamed name none = none
renamed name (some v) = some (record v { name = name })

abbrev pub resized : ℕ → Option LogicalVolume → Option LogicalVolume
resized size none = none
resized size (some v) = some (record v { size = size })

module _ (J : Codec) (vg : Text) where
  unfoldable pub perform : Request → Os (Unit {0})
  perform (create name size) = do
    create_volume J (record no_options { volume_group = vg; name = name; size = size })
    pure tt
  perform (restore name src size) = do
    create_volume J
        (record no_options { volume_group = vg; name = name; size = size; snapshot_name = src })
    pure tt
  perform (clone name src size) = do
    create_volume J
        (record no_options { volume_group = vg; name = name; size = size; clone_name = src })
    pure tt
  perform (remove name) = delete_volume J vg name
  perform (expand name size) = expand_volume J vg name size
  perform (snapshot name src) = do create_snapshot J vg name src; pure tt
  perform (remove_snapshot name) = delete_snapshot J vg name

  -- The calls one after the other, up to the first that returns an error
  unfoldable pub perform_all : List Request → Os (Unit {0})
  perform_all [] = pure tt
  perform_all (r ∷ rs) = do perform r; perform_all rs

  -- What a call does to the volumes of the group
  abbrev pub apply : Request → Group → Group
  apply (create name size) g = change name (some (to_proto (new_vol J vg name size))) g
  apply (restore name src size) g = change name (renamed name (g src)) g
  apply (clone name src size) g = change name (renamed name (g src)) g
  apply (remove name) g = change name none g
  apply (expand name size) g = change name (resized size (g name)) g
  apply (snapshot name src) g = change name (renamed name (g src)) g
  apply (remove_snapshot name) g = change name none g

  abbrev pub apply_all : List Request → Group → Group
  apply_all [] g = g
  apply_all (r ∷ rs) g = apply_all rs (apply r g)

  -- A copy has a source, and a plain name that the group does not have.
  abbrev pub Copies : Text → Text → Group → Type 0
  Copies name src g =
      IsName name
      × (g name ≡ none)
      × ((v : LogicalVolume) × (g src ≡ some v) × J.IsEncodable (vol_of (record v { name = name })))

  -- The calls that make sense: a new name is plain and not there yet, a source is there, and every
  -- record that is written can be encoded.
  abbrev pub Fits : Request → Group → Type 0
  Fits (create name size) g = IsName name × (g name ≡ none) × J.IsEncodable (new_vol J vg name size)
  Fits (restore name src size) g = Copies name src g
  Fits (clone name src size) g = Copies name src g
  Fits (remove name) g = IsName name
  Fits (expand name size) g =
      (v : LogicalVolume) × IsName name
      × (g name ≡ some v)
      × J.IsEncodable (vol_of (record v { size = size }))
  Fits (snapshot name src) g = Copies name src g
  Fits (remove_snapshot name) g = IsName name

  abbrev pub FitsAll : List Request → Group → Type 0
  FitsAll [] g = Unit
  FitsAll (r ∷ rs) g = Fits r g × FitsAll rs (apply r g)

module _ (J : Codec) (L : IsLawful J) (vg : Text) (one : IsName vg) where
  -- What a call leaves: a tidy tree whose volumes are `g`
  abbrev Leaves : Request → Files → Group → Type 0
  Leaves r d g =
      (d' : Files) × (perform J vg r (quiet d) ≡ (ok tt, quiet d'))
      × IsTidy J vg d'
      × (view J vg d' ≡ g)

  left :
      (name : Text) (plain : IsName name) (d d' : Files) (o : Option LogicalVolume)
      → IsTidy J vg d
      → Changed J vg name plain d d' o
      → IsTidy J vg d' × (view J vg d' ≡ change name o (view J vg d))
  left name plain d d' o t c = (Changed-IsTidy J vg name plain d d' t o c, fun_ext c.views)

  -- The source of a copy, as the tree has it
  record Source (name src : Text) (d : Files) (v : LogicalVolume) : Type 0 where
    r : IsReadable J vg d src
    there : lookup (group_key vg ++ (src ∷ [])) d ≡ some dir
    enc : J.IsEncodable (record r.meta { name = name })
    same : some (record v { name = name }) ≡ some (to_proto (record r.meta { name = name }))

  view-Source :
      (name src : Text) (d : Files) (v : LogicalVolume)
      → IsTidy J vg d
      → view J vg d src ≡ some v
      → J.IsEncodable (vol_of (record v { name = name }))
      → Source name src d v
  view-Source name src d v t e enc =
      let (r, there, is) = readable-view J vg src d t v e in
      record {
        r = r;
        there = there;
        enc = subst (λ u. J.IsEncodable (vol_of (record u { name = name }))) is enc;
        same = ap (λ (u : LogicalVolume). some (record u { name = name })) is;
      }

  -- A volume from a snapshot, and one from another volume: the size that is asked for plays no part.
  pub restored-IsTidy :
      (name src : Text) (size : ℕ) (d : Files) (v : LogicalVolume)
      → IsTidy J vg d
      → IsName name
      → view J vg d name ≡ none
      → view J vg d src ≡ some v
      → J.IsEncodable (vol_of (record v { name = name }))
      → (d' : Files) × (create_volume J
            (record no_options { volume_group = vg; name = name; size = size; snapshot_name = src })
            (quiet d)
          ≡ (ok name, quiet d'))
        × IsTidy J vg d'
        × (view J vg d' ≡ change name (some (record v { name = name })) (view J vg d))
  restored-IsTidy name src size d v t plain absent e enc =
      let s = view-Source name src d v t e enc in
      let (d', run, c) =
        restored_volume-held J L vg src name d one plain t.group s.r s.there
          (IsFree-view J vg name plain d t absent) (missing-view J vg name plain d t absent) s.enc
          size [] in
      let (tidy, views) = left name plain d d' _ t c in
      (d', run, tidy, views ∙ ap (λ o. change name o (view J vg d)) (sym s.same))

  pub cloned-IsTidy :
      (name src : Text) (size : ℕ) (d : Files) (v : LogicalVolume)
      → IsTidy J vg d
      → IsName name
      → view J vg d name ≡ none
      → view J vg d src ≡ some v
      → J.IsEncodable (vol_of (record v { name = name }))
      → (d' : Files) × (create_volume J
            (record no_options { volume_group = vg; name = name; size = size; clone_name = src })
            (quiet d)
          ≡ (ok name, quiet d'))
        × IsTidy J vg d'
        × (view J vg d' ≡ change name (some (record v { name = name })) (view J vg d))
  cloned-IsTidy name src size d v t plain absent e enc =
      let s = view-Source name src d v t e enc in
      let (d', run, c) =
        cloned_volume-held J L vg src name d one plain t.group s.r s.there
          (IsFree-view J vg name plain d t absent) (missing-view J vg name plain d t absent) s.enc
          size [] in
      let (tidy, views) = left name plain d d' _ t c in
      (d', run, tidy, views ∙ ap (λ o. change name o (view J vg d)) (sym s.same))

  perform-Leaves :
      (r : Request) (d : Files)
      → IsTidy J vg d
      → Fits J vg r (view J vg d)
      → Leaves r d (apply J vg r (view J vg d))
  unfolding perform
  perform-Leaves (create name size) d t (plain, absent, enc) =
      let (d', run, c) =
        create_volume-held J vg name plain d L size [] t.group
          (IsFree-view J vg name plain d t absent) (missing-view J vg name plain d t absent) enc in
      let (tidy, views) = left name plain d d' _ t c in (d', rw run refl, tidy, views)
  perform-Leaves (remove name) d t plain =
      let (d', run, c) = delete_volume-held J vg name plain d t.group in
      let (tidy, views) = left name plain d d' _ t c in (d', run, tidy, views)
  perform-Leaves (remove_snapshot name) d t plain =
      let (d', run, c) = delete_snapshot-held J vg name plain d t.group in
      let (tidy, views) = left name plain d d' _ t c in (d', run, tidy, views)
  perform-Leaves (restore name src size) d t (plain, absent, (v, e, enc)) =
      let (d', run, tidy, views) = restored-IsTidy name src size d v t plain absent e enc in
      (d', rw run refl, tidy, views ∙ ap (λ o. change name (renamed name o) (view J vg d)) (sym e))
  perform-Leaves (clone name src size) d t (plain, absent, (v, e, enc)) =
      let (d', run, tidy, views) = cloned-IsTidy name src size d v t plain absent e enc in
      (d', rw run refl, tidy, views ∙ ap (λ o. change name (renamed name o) (view J vg d)) (sym e))
  perform-Leaves (snapshot name src) d t (plain, absent, (v, e, enc)) =
      let s = view-Source name src d v t e enc in
      let (d', run, c) =
        create_snapshot-held J L vg src name d one plain t.group s.r s.there
          (IsFree-view J vg name plain d t absent) (missing-view J vg name plain d t absent)
          s.enc in
      let (tidy, views) = left name plain d d' _ t c in
      (
        d',
        rw run refl,
        tidy,
        views ∙ ap (λ o. change name o (view J vg d)) (sym s.same ∙ ap (renamed name) (sym e)),
      )
  perform-Leaves (expand name size) d t (v, plain, e, enc) =
      let (r, there, is) = readable-view J vg name d t v e in
      let enc' = subst (λ u. J.IsEncodable (vol_of (record u { size = size }))) is enc in
      let (d', run, c) = expand_volume-held J vg name plain d L size t.group r there enc' in
      let same : resized size (view J vg d name) ≡ some (to_proto (record r.meta { size = size })) =
        ap (resized size) e ∙ ap (λ (u : LogicalVolume). some (record u { size = size })) is in
      let (tidy, views) = left name plain d d' _ t c in
      (d', run, tidy, views ∙ ap (λ o. change name o (view J vg d)) (sym same))

  -- On a node where no call fails and the group is tidy, every sequence of calls in which each call
  -- fits the volumes that the calls before it have left returns without an error; the group is tidy
  -- again, and its volumes are those that the calls make of the volumes at the beginning.
  pub perform_all-apply_all :
      (rs : List Request) (d : Files)
      → IsTidy J vg d
      → FitsAll J vg rs (view J vg d)
      → (d' : Files) × (perform_all J vg rs (quiet d) ≡ (ok tt, quiet d'))
        × IsTidy J vg d'
        × (view J vg d' ≡ apply_all J vg rs (view J vg d))
  unfolding perform_all
  perform_all-apply_all [] d t f = (d, refl, t, refl)
  perform_all-apply_all (r ∷ rs) d t f =
      let (d1, e1, t1, v1) = perform-Leaves r d t f.0 in
      let (d2, e2, t2, v2) =
        perform_all-apply_all rs d1 t1 (subst (λ g. FitsAll J vg rs g) (sym v1) f.1) in
      (d2, rw (e1, e2) refl, t2, v2 ∙ ap (apply_all J vg rs) v1)
