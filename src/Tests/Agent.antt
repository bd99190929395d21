-- ===== src/Tests/Agent.antt =====
-- The handlers of a node over a table of mounts, the numbers of a small file system, and the labels of a
-- node.
use csi_hostpath.Base.{
  ℕ, ◌+◌, ◌*◌, ◌-◌, ◌≤◌, ◌≡◌, refl, ap, sym, Bool, true, false, Option, none, some, [], ◌∷◌, Text,
  text, inr, ok, ◌==◌, list_eq, nat_eq, list_beq, if◌then◌else◌, arith,
}
use csi_hostpath.Base.Dict.{Dict, lookup}
use csi_hostpath.Base.Int.{pos}
use csi_hostpath.Cluster.{vg_name_key, kubernetes_node_identity_key}
use csi_hostpath.Controller.Requests.{VolumeCapability, mount}
use csi_hostpath.HostPath.{get_vol_path, root}
use csi_hostpath.Agent.{
  Mounter, NodePublishVolumeRequest, node_publish_volume, node_unpublish_volume,
}
use csi_hostpath.Agent.Info.{
  node_get_info, allowed_label, split, comma, or_else, lookup-node_get_info, NodeGetInfoResponse,
}
use csi_hostpath.Agent.Mounts.{
  Mount, Mounts, IsMountTable, mount_of, mount_by, wanted, publish, unpublish,
  node_publish_volume-publish, node_unpublish_volume-node_publish_volume, node_publish_volume_twice,
}
use csi_hostpath.Agent.Stats.{
  Statfs, bytes, inodes, node_get_volume_stats, node_get_volume_stats_lem,
}

-- No bind mount is seen, and no call fails.
abbrev mounter : Mounter
mounter = record {
  State = Mounts;
  is_missing = λ t s. true;
  mkdir_all = λ t s. (inr tt, s);
  is_likely_not_mount_point = λ t s. inr true;
  mount = λ source t fs_type options s. (
    inr tt,
    λ u.
        if t == u
        then record { source = source; fs_type = fs_type; options = options } ∷ s u
        else s u,
  );
  cleanup_mount_point = λ t s. (inr tt, λ u. if t == u then [] else s u);
}

seen : (t : Text) (s : Mounts) (b : Bool) → mounter.is_likely_not_mount_point t s ≡ inr b → b ≡ true
seen t s b h = cc

abbrev table : IsMountTable mounter
table = record {
  mounts = λ s. s;
  is_seen = λ s t. false;
  seen = seen;
  made = λ t s s' h. ((λ u. ap (λ w. w.1 u) (sym h)), refl);
  mounted = λ source t fs_type options s s' h u. ap (λ w. w.1 u) (sym h);
  cleaned = λ t s s' h u. ap (λ w. w.1 u) (sym h);
}

same_state : {A B : Type 0} (x : A × B) (a : A) → x.0 ≡ a → x ≡ (a, x.1)
same_state x a e = ap (λ y. (y, x.1)) e

abbrev a_mount : VolumeCapability
a_mount = record { access_mode = some 1; access_type = mount [] [] }

abbrev publish_request : NodePublishVolumeRequest
unfolding text
publish_request = record {
  volume_id = text "v";
  target_path = text "/t";
  volume_capability = some a_mount;
  volume_context = (vg_name_key, text "pool") ∷ [];
  readonly = true;
}

abbrev no_mounts : Mounts
no_mounts = λ u. []

abbrev published : Mounts
published = (node_publish_volume mounter publish_request no_mounts).1

abbrev published_twice : Mounts
published_twice = (node_publish_volume mounter publish_request published).1

abbrev unpublished : Mounts
unpublished =
    (node_unpublish_volume mounter publish_request.volume_id publish_request.target_path
      published).1

abbrev only_mount : Mount
unfolding text
only_mount = record {
  source = text "/opt/csi-hostpath/pool/v/mountpoint";
  fs_type = text "ext4";
  options = text "bind" ∷ text "ro" ∷ [];
}

mount_test : mount_of publish_request ≡ some only_mount
unfolding mount_of mount_by wanted text list_beq lookup
mount_test = refl

published_test : (node_publish_volume mounter publish_request no_mounts).0 ≡ ok tt
unfolding node_publish_volume text list_beq lookup get_vol_path root
published_test = refl

published_run : node_publish_volume mounter publish_request no_mounts ≡ (ok tt, published)
published_run =
    same_state (node_publish_volume mounter publish_request no_mounts) (ok tt) published_test

published_again : node_publish_volume mounter publish_request published ≡ (ok tt, published_twice)
unfolding node_publish_volume text list_beq lookup get_vol_path root
published_again = refl

unpublished_run :
    node_unpublish_volume mounter publish_request.volume_id publish_request.target_path published
    ≡ (ok tt, unpublished)
unfolding node_unpublish_volume text list_beq
unpublished_run = refl

node_publish_volume-publish_example :
    published publish_request.target_path
    ≡ publish false publish_request.target_path
        (mount_of publish_request)
        no_mounts
        publish_request.target_path
node_publish_volume-publish_example =
    node_publish_volume-publish mounter table publish_request no_mounts published published_run
      publish_request.target_path

node_unpublish_volume-node_publish_volume_example :
    unpublished publish_request.target_path
    ≡ unpublish publish_request.target_path no_mounts publish_request.target_path
node_unpublish_volume-node_publish_volume_example =
    node_unpublish_volume-node_publish_volume mounter table publish_request no_mounts published
      unpublished published_run unpublished_run publish_request.target_path

node_publish_volume_twice_example :
    published_twice publish_request.target_path ≡ only_mount ∷ only_mount ∷ []
node_publish_volume_twice_example =
    node_publish_volume_twice mounter table publish_request only_mount no_mounts published
      published_twice mount_test refl refl refl published_run published_again

abbrev small : Statfs
small = record { blocks = 10; bfree = 6; bavail = 5; bsize = pos 4096; files = 8; ffree = 3 }

abbrev statfs : Text → Option Statfs
statfs path = some small

abbrev path : Text
unfolding text
path = text "/t"

node_get_volume_stats_example :
    (used available : ℕ) × (node_get_volume_stats statfs path path tt ≡ (
      ok (
          record {
            unit = bytes;
            total = pos (10 * 4096);
            used = pos used;
            available = pos available;
          }
          ∷ record { unit = inodes; total = pos 8; used = pos (8 - 3); available = pos 3 }
          ∷ []),
      tt,
    ))
    × (used ≡ (10 - 6) * 4096)
    × (available ≡ 5 * 4096)
    × (used + available ≤ 10 * 4096)
unfolding list_beq text
node_get_volume_stats_example =
    node_get_volume_stats_lem statfs path path small 4096 tt refl refl refl refl (omega arith)
      (omega arith) (omega arith) (omega arith) (omega arith) (omega arith)

abbrev labels : Dict Text Text
unfolding text
labels = (text "zone", text "a") ∷ (text "rack", text "b") ∷ []

abbrev zone : Text
unfolding text
zone = text "zone"

abbrev node : Text
unfolding text
node = text "n1"

lookup-node_get_info_example :
    (rsp : NodeGetInfoResponse) × (node_get_info node (some labels) zone tt ≡ (ok rsp, tt))
    × (lookup zone rsp.topology
        ≡ or_else
            (allowed_label labels (split comma zone) zone)
            (if kubernetes_node_identity_key == zone then some node else none))
lookup-node_get_info_example = lookup-node_get_info node labels zone zone tt
