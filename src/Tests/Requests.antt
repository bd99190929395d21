-- ===== src/Tests/Requests.antt =====
-- A sequence of calls on an empty node: a volume is made, a snapshot taken, the volume grown, another
-- made from the snapshot, and the first one and the snapshot removed.
use csi_hostpath.Base.{◌≡◌, refl, some, List, [], ◌∷◌, Text, text, ok, list_beq, list_eq, nat_eq}
use csi_hostpath.Base.Dict.{lookup}
use csi_hostpath.FileSystem.{Files, components, quiet, IsName}
use csi_hostpath.HostPath.{root}
use csi_hostpath.Client.Listing.{view}
use csi_hostpath.Client.Tidy.{IsTidy, empty-IsTidy}
use csi_hostpath.Client.Requests.{
  Request, create, restore, remove, expand, snapshot, remove_snapshot, perform_all, apply_all,
  FitsAll, perform_all-apply_all,
}
use csi_hostpath.Tests.Plain.{plain, plain-IsLawful}

abbrev pool : Text
unfolding text
pool = text "p"

abbrev a : Text
unfolding text
a = text "a"

abbrev b : Text
unfolding text
b = text "b"

abbrev snap : Text
unfolding text
snap = text "s"

abbrev calls : List Request
calls =
    create a 7
    ∷ snapshot snap a
    ∷ expand a 9
    ∷ restore b snap 20
    ∷ remove a
    ∷ remove_snapshot snap
    ∷ []

pool-IsName : IsName pool
unfolding list_beq components pool text
pool-IsName = (refl, refl)

calls-Fit : FitsAll plain pool calls (view plain pool [])
unfolding components a b snap pool text view lookup list_beq plain root
calls-Fit = (
  ((refl, refl), refl, refl),
  (
    ((refl, refl), refl, (_, refl, refl)),
    (
      (_, (refl, refl), refl, refl),
      (((refl, refl), refl, (_, refl, refl)), ((refl, refl), ((refl, refl), tt))),
    ),
  ),
)

perform_all-apply_all_example :
    (d' : Files) × (perform_all plain pool calls (quiet []) ≡ (ok tt, quiet d'))
    × IsTidy plain pool d'
    × (view plain pool d' ≡ apply_all plain pool calls (view plain pool []))
perform_all-apply_all_example =
    perform_all-apply_all plain plain-IsLawful pool pool-IsName calls [] (empty-IsTidy plain pool)
      calls-Fit

-- In the end there is the volume that was made from the snapshot, with the size of the snapshot.
calls_leave :
    apply_all plain pool calls (view plain pool []) b
    ≡ some (record {
      volume_group = pool;
      name = b;
      size = 7;
      clone_name = [];
      tags = [];
      snapshot_name = [];
      status = text "ok";
    })
unfolding components a b snap pool text view lookup list_beq plain root
calls_leave = refl
