-- ===== src/Tests/Clones.antt =====
-- A clone of a volume that has a directory with a file in it.
use csi_hostpath.Base.{
  ◌≡◌, ◌≢◌, refl, some, [], ◌∷◌, ◌++◌, Text, text, ok, list_beq, list_eq, nat_eq, has_prefix,
  contains,
}
use csi_hostpath.Base.Dict.{lookup, insert}
use csi_hostpath.FileSystem.{FilePath, Files, dir, file, components, quiet, join_path, IsName}
use csi_hostpath.Volume.{Vol}
use csi_hostpath.HostPath.{root, new_vol, clone_vol, create_snapshot, below}
use csi_hostpath.HostPath.Keys.{meta_key}
use csi_hostpath.HostPath.Lifecycle.{IsFree}
use csi_hostpath.HostPath.Clones.{mount_key, IsCopyable, copies-data}
use csi_hostpath.Tests.Plain.{plain, plain-IsLawful}

abbrev pool : Text
unfolding text
pool = text "p"

abbrev a : Text
unfolding text
a = text "a"

abbrev b : Text
unfolding text
b = text "b"

abbrev notes : Text
unfolding text
notes = text "n"

abbrev todo : Text
unfolding text
todo = text "t"

abbrev meta : Vol
meta = new_vol plain pool a 3

-- The directory `n` with the file `t` below the mount point of `a`
abbrev filled : Files
filled =
    (meta_key pool a, file (plain.marshal meta))
    ∷ (mount_key pool a ++ (notes ∷ []), dir)
    ∷ (mount_key pool a ++ (notes ∷ todo ∷ []), file (4 ∷ 2 ∷ []))
    ∷ []

pool-IsName : IsName pool
unfolding list_beq components pool text
pool-IsName = (refl, refl)

a-IsName : IsName a
unfolding list_beq components a text
a-IsName = (refl, refl)

b-IsName : IsName b
unfolding list_beq components b text
b-IsName = (refl, refl)

b-IsFree : IsFree pool b filled
unfolding lookup list_beq components root text a b pool
b-IsFree = record {
  clear = (λ x e. cc, (λ x e. cc, (λ x e. cc, (λ x e. cc, tt))));
  clear_mount = (λ x e. cc, (λ x e. cc, (λ x e. cc, (λ x e. cc, (λ x e. cc, tt)))));
  plain = λ e. cc;
}

filled-IsCopyable : IsCopyable pool a b filled
unfolding lookup list_beq components root text a b pool notes todo below insert contains has_prefix
    join_path
filled-IsCopyable = record {
  walk = (
    record {
      first = notes;
      rest = [];
      at = refl;
      clean = refl;
      absent = refl;
      new = refl;
      way = tt;
    },
    (
      record {
        first = notes;
        rest = todo ∷ [];
        at = refl;
        clean = refl;
        absent = refl;
        new = refl;
        way = (refl, tt);
      },
      tt,
    ),
  );
  empty = refl;
}

filled_metadata : lookup (meta_key pool a) filled ≡ some (file (plain.marshal meta))
unfolding lookup list_beq components root text a pool
filled_metadata = refl

meta-decodes : plain.unmarshal (plain.marshal meta) ≡ ok meta
unfolding plain
meta-decodes = plain-IsLawful.round_trip meta refl

copies-data_example :
    (d' : Files) × (clone_vol plain pool a b (quiet filled) ≡ (ok b, quiet d'))
    × (create_snapshot plain pool b a (quiet filled) ≡ (ok 3, quiet d'))
    × ((q : FilePath)
        → q ≢ []
        → lookup (mount_key pool b ++ q) d' ≡ lookup (mount_key pool a ++ q) filled)
unfolding list_beq a b text lookup components root pool
copies-data_example =
    copies-data plain plain-IsLawful pool a b filled (plain.marshal meta) meta pool-IsName a-IsName
      b-IsName refl b-IsFree refl filled_metadata meta-decodes filled-IsCopyable
