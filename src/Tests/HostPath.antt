-- ===== src/Tests/HostPath.antt =====
-- The commands of the node on small file systems.
use csi_hostpath.Base.{
  ◌≡◌, ◌<◌, refl, none, some, [], ◌∷◌, true, false, Text, text, length, ok, err, has_prefix,
  list_beq, list_eq, nat_eq, arith,
}
use csi_hostpath.Base.Dict.{lookup}
use csi_hostpath.FileSystem.{Files, World, dir, file, components, quiet, IsName}
use csi_hostpath.Volume.{Vol}
use csi_hostpath.HostPath.{
  root, new_vol, create_vol, expand_vol, remove_vol, remove_snapshot, clone_vol, create_snapshot,
  get_vol_meta,
}
use csi_hostpath.HostPath.Keys.{vol_key, meta_key}
use csi_hostpath.HostPath.Frame.{Spared, commands_frame}
use csi_hostpath.HostPath.Lifecycle.{IsFree, create_vol_stale, get-expand_vol, get-copies}
use csi_hostpath.Tests.Plain.{plain, encode, enc, plain-IsLawful}

abbrev pool : Text
unfolding text
pool = text "p"

abbrev a : Text
unfolding text
a = text "a"

abbrev b : Text
unfolding text
b = text "b"

-- A volume whose status is long
abbrev old_vol : Vol
unfolding text a pool
old_vol = record (new_vol plain pool a 3) { status = text "formatting" }

abbrev held : Text → Files
held name =
    (vol_key pool name, dir)
    ∷ (meta_key pool name, file (plain.marshal (record old_vol { name = name })))
    ∷ []

held-IsFree : IsFree pool a (held a)
unfolding lookup list_beq components root text a pool
held-IsFree = record {
  clear = (λ x e. cc, (λ x e. cc, (λ x e. cc, (λ x e. cc, tt))));
  clear_mount = (λ x e. cc, (λ x e. cc, (λ x e. cc, (λ x e. cc, (λ x e. cc, tt)))));
  plain = λ e. cc;
}

held_metadata : lookup (meta_key pool a) (held a) ≡ some (file (plain.marshal old_vol))
unfolding lookup list_beq components root text a pool
held_metadata = refl

new-shorter : length (plain.marshal (new_vol plain pool a 5)) < length (plain.marshal old_vol)
unfolding plain old_vol encode enc text a pool
new-shorter = omega arith

create_vol_stale_example :
    (d' : Files) × (e : Text) × (create_vol plain pool a 5 (quiet (held a)) ≡ (ok a, quiet d'))
    × (get_vol_meta plain pool a (quiet d') ≡ (err e, quiet d'))
create_vol_stale_example =
    create_vol_stale plain plain-IsLawful pool a (held a) 5 old_vol held-IsFree held_metadata
      new-shorter

held_dir : lookup (vol_key pool a) (held a) ≡ some dir
unfolding lookup list_beq components root text a pool
held_dir = refl

old_vol-decodes : plain.unmarshal (plain.marshal old_vol) ≡ ok old_vol
unfolding plain old_vol
old_vol-decodes = plain-IsLawful.round_trip old_vol refl

get-expand_vol_example :
    (d' : Files) × (expand_vol plain pool a 9 (quiet (held a)) ≡ (ok a, quiet d'))
    × (get_vol_meta plain pool a (quiet d') ≡ (ok (record old_vol { size = 9 }), quiet d'))
unfolding plain old_vol
get-expand_vol_example =
    get-expand_vol plain plain-IsLawful pool a (held a) 9 (plain.marshal old_vol) old_vol held_dir
      held_metadata old_vol-decodes refl

metadata-inside : has_prefix (vol_key pool a) (meta_key pool a) ≡ true
unfolding has_prefix list_beq components root text a pool
metadata-inside = refl

pool-IsName : IsName pool
unfolding list_beq components pool text
pool-IsName = (refl, refl)

b-IsName : IsName b
unfolding list_beq components b text
b-IsName = (refl, refl)

a-IsName : IsName a
unfolding list_beq components a text
a-IsName = (refl, refl)

b-IsFree : IsFree pool b (held a)
unfolding lookup list_beq components root text a b pool
b-IsFree = record {
  clear = (λ x e. cc, (λ x e. cc, (λ x e. cc, (λ x e. cc, tt))));
  clear_mount = (λ x e. cc, (λ x e. cc, (λ x e. cc, (λ x e. cc, (λ x e. cc, tt)))));
  plain = λ e. cc;
}

b_missing : lookup (meta_key pool b) (held a) ≡ none
unfolding lookup list_beq components root text a b pool
b_missing = refl

get-copies_example :
    (d' : Files) × (clone_vol plain pool a b (quiet (held a)) ≡ (ok b, quiet d'))
    × (create_snapshot plain pool b a (quiet (held a)) ≡ (ok 3, quiet d'))
    × (get_vol_meta plain pool b (quiet d') ≡ (ok (record old_vol { name = b }), quiet d'))
unfolding plain old_vol
get-copies_example =
    get-copies plain plain-IsLawful pool a b (held a) (plain.marshal old_vol) old_vol pool-IsName
      a-IsName b-IsFree b_missing held_metadata old_vol-decodes refl

-- A world in which the second and the fourth system call fail, with three bytes written
abbrev faulty : World
faulty = record {
  files = held a;
  faults =
      none
      ∷ some (record { reason = []; written = 3 })
      ∷ none
      ∷ some (record { reason = []; written = 3 })
      ∷ [];
}

b-outside : has_prefix (vol_key pool b) (meta_key pool a) ≡ false
unfolding has_prefix list_beq components root text a b pool
b-outside = refl

commands_frame_example :
    Spared (vol_key pool b) (create_vol plain pool b 5) faulty (meta_key pool a)
    × Spared (vol_key pool b) (expand_vol plain pool b 5) faulty (meta_key pool a)
    × Spared (vol_key pool b) (remove_vol pool b) faulty (meta_key pool a)
    × Spared (vol_key pool b) (remove_snapshot pool b) faulty (meta_key pool a)
commands_frame_example =
    commands_frame plain pool b faulty (meta_key pool a) 5 pool-IsName b-IsName b-outside
