-- ===== src/Client/Copies.antt =====
-- Copies that are made over a connection, seen as operations on the volumes of a group: snapshots, and
-- volumes from a snapshot or from another volume.
use csi_hostpath.Base.{
  ℕ, ◌≡◌, refl, sym, ap, ◌∙◌, subst, false, none, some, List, [], ◌∷◌, ◌++◌, Text, ok, ◌==◌, nat_eq,
  list_eq, list_beq, if◌then◌else◌,
}
use csi_hostpath.Base.Int.{to_int64}
use csi_hostpath.Base.Dict.{lookup}
use csi_hostpath.FileSystem.{components, dir, Files, quiet, IsName, system_call}
use csi_hostpath.FileSystem.Laws.{Kept}
use csi_hostpath.FileSystem.Unique.{IsUnique}
use csi_hostpath.Volume.{Vol, to_proto}
use csi_hostpath.Volume.Codec.{Codec, IsLawful}
use csi_hostpath.HostPath
use csi_hostpath.HostPath.{copy_vol}
use csi_hostpath.HostPath.Frame.{copies_spare}
use csi_hostpath.HostPath.Keys.{group_key, vol_key, meta_key}
use csi_hostpath.HostPath.Lifecycle.{IsFree, copy_vol-held}
use csi_hostpath.HostPath.Unique.{copy_vol-KeepsUnique}
use csi_hostpath.Service
use csi_hostpath.Client.Groups.{vol_key-plain, IsLocal, Changed, Changed-there, group-there}
use csi_hostpath.Client.Listing.{IsGroup, IsReadable, view}
use csi_hostpath.Client.Remote.{create_snapshot, create_volume}

-- A plain name is not empty.
IsName-named : (name : Text) → IsName name → (name == []) ≡ false
unfolding components list_beq
IsName-named [] plain = cc
IsName-named (c ∷ s) plain = refl

module _ (J : Codec) (L : IsLawful J) (vg src dest : Text) (d : Files) (one : IsName vg)
    (plain : IsName dest) (g : IsGroup J vg d) (r : IsReadable J vg d src)
    (there : lookup (group_key vg ++ (src ∷ [])) d ≡ some dir) (free : IsFree vg dest d)
    (missing : lookup (meta_key vg dest) d ≡ none)
    (enc : J.IsEncodable (record r.meta { name = dest })) where
  abbrev copied : Vol
  copied = record r.meta { name = dest }

  -- The tree after a copy
  copy_vol-Changed :
      (d' : Files) × (copy_vol J vg src dest (quiet d) ≡ (ok copied, quiet d'))
      × Changed J vg dest plain d d' (some (to_proto copied))
  unfolding HostPath.create_snapshot
  copy_vol-Changed =
      let (d', run, held, home', _) =
        copy_vol-held J L vg src dest d r.bytes r.meta one r.plain free missing r.held r.decodes in
      let taken : HostPath.create_snapshot J vg dest src (quiet d) ≡ (ok r.meta.size, quiet d') =
        rw run refl in
      let there' : lookup (group_key vg ++ (dest ∷ [])) d' ≡ some dir =
        ap (λ q. lookup q d') (sym (vol_key-plain vg dest plain)) ∙ home' in
      let own : IsReadable J vg d' dest = record {
        plain = plain;
        bytes = J.marshal copied;
        meta = copied;
        held = held;
        decodes = L.round_trip copied enc;
        named = refl;
      } in
      let local : IsLocal J vg dest plain d d' = λ q o.
        subst (λ w. Kept (vol_key vg dest) q (lookup q d) (lookup q w.files)) (ap (λ x. x.1) taken)
          (copies_spare J vg dest (quiet d) q src one r.plain o).1 in
      let unique : IsUnique d' =
        subst (λ w. IsUnique w.files) (ap (λ x. x.1) run)
          ((copy_vol-KeepsUnique J vg src dest).at (quiet d) g.unique) in
      let group = group-there J vg dest src plain d d' g local there in
      (d', run, Changed-there J vg dest plain d d' g local unique group own there')

  pub create_snapshot-held :
      (d' : Files) × (create_snapshot J vg dest src (quiet d)
        ≡ (ok (to_int64 r.meta.size), quiet d'))
      × Changed J vg dest plain d d' (some (to_proto copied))
  unfolding create_snapshot system_call Service.create_snapshot HostPath.create_snapshot
  create_snapshot-held = let (d', run, c) = copy_vol-Changed in (d', rw run refl, c)

  -- A volume that is made from a snapshot, and from another volume: the size that is asked for plays no
  -- part.
  pub restored_volume-held :
      (size : ℕ) (tags : List Text)
      → (d' : Files) × (create_volume J
            (record {
              volume_group = vg;
              name = dest;
              size = size;
              tags = tags;
              clone_name = [];
              snapshot_name = src;
            })
            (quiet d)
          ≡ (ok dest, quiet d'))
        × Changed J vg dest plain d d' (some (to_proto copied))
  unfolding create_volume system_call Service.create_vol Service.create_command HostPath.clone_vol
  restored_volume-held size tags =
      let (d', run, c) = copy_vol-Changed in (d', rw (IsName-named src r.plain, run) refl, c)

  pub cloned_volume-held :
      (size : ℕ) (tags : List Text)
      → (d' : Files) × (create_volume J
            (record {
              volume_group = vg;
              name = dest;
              size = size;
              tags = tags;
              clone_name = src;
              snapshot_name = [];
            })
            (quiet d)
          ≡ (ok dest, quiet d'))
        × Changed J vg dest plain d d' (some (to_proto copied))
  unfolding create_volume system_call Service.create_vol Service.create_command HostPath.clone_vol
      list_beq
  cloned_volume-held size tags =
      let (d', run, c) = copy_vol-Changed in (d', rw (IsName-named src r.plain, run) refl, c)

module _ (J : Codec) (L : IsLawful J) (vg src snap : Text) (d : Files) where
  -- Where no call fails, the names are plain, the volumes of the group can be read, the source is one of
  -- them, nothing stands in the way of the snapshot, it has no metadata yet and its record can be encoded,
  -- `CreateSnapshot` returns the size of the source as an int64, and puts the source under the new
  -- name into the group; the group can be read again, and all others stay as they are.
  pub create_snapshot-view :
      IsName vg
      → IsName snap
      → IsGroup J vg d
      → (r : IsReadable J vg d src) → lookup (group_key vg ++ (src ∷ [])) d ≡ some dir
      → IsFree vg snap d
      → lookup (meta_key vg snap) d ≡ none
      → J.IsEncodable (record r.meta { name = snap })
      → (d' : Files) × (create_snapshot J vg snap src (quiet d)
          ≡ (ok (to_int64 r.meta.size), quiet d'))
        × IsGroup J vg d'
        × ((x : Text)
            → view J vg d' x ≡ (
                if snap == x
                then some (to_proto (record r.meta { name = snap }))
                else view J vg d x))
  create_snapshot-view one plain g r there free missing enc =
      let (d', run, c) =
        create_snapshot-held J L vg src snap d one plain g r there free missing enc in
      (d', run, c.group, c.views)
