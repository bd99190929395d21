-- ===== src/Controller/Lists/Wanted.antt =====
-- Which objects `getAllPVsOfLocalCSI` and `getAllSnapshotContentOfLocalCSI` find, and which requests
-- `ValidateVolumeCapabilities` confirms.
use mathlib.Core.Path.{fun_ext}
use csi_hostpath.Base.{
  ◌≡◌, ◌≢◌, ◌↔◌, refl, ap, ◌∙◌, Option, none, some, List, [], ◌∷◌, Bool, true, false, ◌&&◌, Text,
  text, not, Option-cases, inl, inr, nat_eq, list_eq, ◌==◌, list_beq, Outcome, ok, if◌then◌else◌,
  to_lower,
}
use csi_hostpath.Base.Dict.{Dict, lookup, insert, lookup-insert}
use csi_hostpath.Cluster.{Cluster, PersistentVolume, VolumeSnapshotContent, local_provider}
use csi_hostpath.Controller.{Code}
use csi_hostpath.Controller.Requests.{VolumeCapability, is_valid_volume_capabilities}
use csi_hostpath.Controller.Checks.{AllWriters, is_valid_volume_capabilities_lem}
use csi_hostpath.Controller.Lists.{
  collect, is_local_volume, is_local_content, get_all_pvs_of_local_csi,
  get_all_snapshot_content_of_local_csi, validate_volume_capabilities,
}

and_false : (b : Bool) → false ≡ (b && false)
and_false true = refl
and_false false = refl

and_comm : (a b : Bool) → (a && b) ≡ (b && a)
and_comm true true = refl
and_comm true false = refl
and_comm false true = refl
and_comm false false = refl

and_if : (a b : Bool) → (a && not b) ≡ (if b then false else a)
and_if true true = refl
and_if true false = refl
and_if false true = refl
and_if false false = refl

-- The last object of a name that is wanted
unfoldable pub last_of : {A : Type 0} → (A → Bool) → (A → Text) → Text → List A → Option A
last_of is_wanted name k [] = none
last_of is_wanted name k (a ∷ rest) =
    let later = last_of is_wanted name k rest in
    elim later [ some b ↦ some b | none ↦ if is_wanted a && name a == k then some a else none ]

abbrev or_else : {A : Type 0} → Option A → Option A → Option A
or_else (some a) o = some a
or_else none o = o

module _ {A : Type 0} (is_wanted : A → Bool) (name : A → Text) where
  join :
      (wanted same : Bool) (a : A) (later found : Option A)
      → or_else later (if wanted then if same then some a else found else found)
        ≡ or_else
            (elim later [ some b ↦ some b | none ↦ if wanted && same then some a else none ])
            found
  join wanted same a (some b) found = refl
  join true true a none found = refl
  join true false a none found = refl
  join false same a none found = refl

  found_step :
      (wanted : Bool) (k : Text) (found : Dict Text A) (a : A)
      → lookup k (if wanted then insert (name a) a found else found)
        ≡ (if wanted then if name a == k then some a else lookup k found else lookup k found)
  found_step true k found a = lookup-insert (name a) k a found
  found_step false k found a = refl

  lookup-collect_from :
      (k : Text) (found : Dict Text A) (l : List A)
      → lookup k (collect is_wanted name found l)
        ≡ or_else (last_of is_wanted name k l) (lookup k found)
  unfolding collect last_of
  lookup-collect_from k found [] = refl
  lookup-collect_from k found (a ∷ rest) =
      lookup-collect_from k (if is_wanted a then insert (name a) a found else found) rest
      ∙ ap (or_else (last_of is_wanted name k rest)) (found_step (is_wanted a) k found a)
      ∙ join (is_wanted a) (name a == k) a (last_of is_wanted name k rest) (lookup k found)

  lookup-collect :
      (k : Text) (l : List A) → lookup k (collect is_wanted name [] l) ≡ last_of is_wanted name k l
  unfolding lookup
  lookup-collect k l = lookup-collect_from k [] l ∙ drop_none (last_of is_wanted name k l)
    where
      drop_none : (o : Option A) → or_else o none ≡ o
      drop_none none = refl
      drop_none (some a) = refl

-- The volumes and the snapshot contents of the driver hostpath.csi.ake.io: a volume that is bound, and
-- a content that belongs to a snapshot
abbrev pub is_bound_volume : PersistentVolume → Bool
unfolding text
is_bound_volume pv =
    pv.phase == text "Bound"
    && (elim pv.csi [ none ↦ false | some source ↦ source.driver == text "hostpath.csi.ake.io" ])

abbrev pub is_snapshot_content : VolumeSnapshotContent → Bool
unfolding text
is_snapshot_content content =
    if content.snapshot_ref_name == [] then false else content.driver == text "hostpath.csi.ake.io"

is_local_volume-bound : (pv : PersistentVolume) → is_local_volume pv ≡ is_bound_volume pv
unfolding is_local_volume text
is_local_volume-bound pv = elim (Option-cases pv.csi) [
  | inl e ↦ rw e (and_false (pv.phase == text "Bound"))
  | inr (source, e) ↦ rw e (and_comm (source.driver == local_provider) (pv.phase == text "Bound"))
]

is_local_content-snapshot :
    (content : VolumeSnapshotContent) → is_local_content content ≡ is_snapshot_content content
unfolding is_local_content text
is_local_content-snapshot content =
    and_if (content.driver == local_provider) (content.snapshot_ref_name == [])

-- With a client and the lists that the API server has, the map of `getAllPVsOfLocalCSI` has under each
-- name the last volume of that name whose phase is Bound and whose driver is hostpath.csi.ake.io, and
-- the map of `getAllSnapshotContentOfLocalCSI` the last content of that name that has this driver and
-- the name of a snapshot.
pub local_objects_lem :
    (K : Cluster) (pvs : List PersistentVolume) (contents : List VolumeSnapshotContent) (k : Text)
    → K.has_client ≡ true
    → K.persistent_volumes ≡ some pvs
    → K.snapshot_contents ≡ some contents
    → ((d : Dict Text PersistentVolume) × (get_all_pvs_of_local_csi K ≡ some d)
        × (lookup k d ≡ last_of is_bound_volume (λ pv. pv.name) k pvs))
      × (lookup k (get_all_snapshot_content_of_local_csi K)
          ≡ last_of is_snapshot_content (λ content. content.name) k contents)
unfolding get_all_pvs_of_local_csi get_all_snapshot_content_of_local_csi
local_objects_lem K pvs contents k client volumes snapshots = (
  (
    _,
    rw (client, volumes) refl,
    lookup-collect is_local_volume (λ pv. pv.name) k pvs
        ∙ ap (λ p. last_of p (λ (pv : PersistentVolume). pv.name) k pvs)
            (fun_ext is_local_volume-bound),
  ),
  rw snapshots (
      lookup-collect is_local_content (λ content. content.name) k contents
      ∙ ap (λ p. last_of p (λ (content : VolumeSnapshotContent). content.name) k contents)
          (fun_ext is_local_content-snapshot)),
)

-- `ValidateVolumeCapabilities` confirms the capabilities asked for exactly where the request has a
-- volume and at least one capability, and each capability has the access mode SINGLE_NODE_WRITER.
pub validate_volume_capabilities_lem :
    {S : Type 0} (volume_id : Text) (cs : List VolumeCapability) (s : S)
    → (validate_volume_capabilities volume_id cs s ≡ (ok (some cs), s))
      ↔ ((volume_id ≢ []) × (cs ≢ []) × AllWriters cs)
unfolding validate_volume_capabilities to_lower list_beq
validate_volume_capabilities_lem {S} [] cs s = (λ e. absurd cc, λ h. absurd (h.0 refl))
validate_volume_capabilities_lem {S} (x ∷ id) [] s = (λ e. absurd cc, λ h. absurd (h.1 refl))
validate_volume_capabilities_lem {S} (x ∷ id) (c ∷ cs) s =
    let (f, g) = is_valid_volume_capabilities_lem (c ∷ cs) in
    (
      λ e. (λ p. cc, λ p. cc, f (confirmed (is_valid_volume_capabilities (c ∷ cs)) e)),
      λ h. rw (g h.2) refl,
    )
  where
    confirmed :
        (b : Bool)
        → Path
            (Outcome Code (Option (List VolumeCapability)) × S)
            (ok (if b then some (c ∷ cs) else none), s)
            (ok (some (c ∷ cs)), s)
        → b ≡ true
    confirmed true e = refl
    confirmed false e = absurd cc
