-- ===== src/Agent/Stats.antt =====
-- pkg/driver/agent.go: `NodeGetVolumeStats`. What `statfs` answers is a parameter.
use native.Mathlib.Nat.{mul-le-mul_right, le-mul_of_pos_right, add-mul}
use csi_hostpath.Base.{
  false, ℕ, ◌+◌, ◌-◌, ◌*◌, ◌^◌, ◌<◌, ◌≤◌, ◌≡◌, refl, Option, some, List, [], ◌∷◌, Text, ok, Exec,
  pure, guard, or_fail, ◌>>=◌, ◌>>◌, not, ◌==◌, list_eq, nat_eq, arith,
}
use csi_hostpath.Base.Int.{
  ℤ, pos, to_int64, times64, sub_uint64, times64-pos, sub_uint64-le, to_int64-pos,
}
use csi_hostpath.Controller.{Code, invalid_argument, internal}

-- `unix.Statfs_t`: numbers of blocks and of files as uint64, and the size of a block as int64
pub record Statfs : Type 0 where
  pub blocks : ℕ
  pub bfree : ℕ
  pub bavail : ℕ
  pub bsize : ℤ
  pub files : ℕ
  pub ffree : ℕ

pub data UsageUnit : Type 0 where
  bytes : UsageUnit
  inodes : UsageUnit

-- `csi.VolumeUsage`
pub record VolumeUsage : Type 0 where
  pub unit : UsageUnit
  pub total : ℤ
  pub used : ℤ
  pub available : ℤ

unfoldable pub usage : Statfs → List VolumeUsage
unfolding to_int64 times64 sub_uint64
usage sfs =
    record {
      unit = bytes;
      total = times64 (to_int64 sfs.blocks) sfs.bsize;
      used = times64 (to_int64 (sub_uint64 sfs.blocks sfs.bfree)) sfs.bsize;
      available = times64 (to_int64 sfs.bavail) sfs.bsize;
    }
    ∷ record {
      unit = inodes;
      total = to_int64 sfs.files;
      used = to_int64 (sub_uint64 sfs.files sfs.ffree);
      available = to_int64 sfs.ffree;
    }
    ∷ []

unfoldable pub node_get_volume_stats :
    {S : Type 0} → (Text → Option Statfs) → Text → Text → Exec S Code (List VolumeUsage)
unfolding usage
node_get_volume_stats statfs volume_id volume_path = do
  guard (not (volume_id == [])) invalid_argument
  guard (not (volume_path == [])) invalid_argument
  sfs ← or_fail (statfs volume_path) internal
  pure (usage sfs)

shares :
    (blocks bfree bavail b : ℕ)
    → bfree ≤ blocks
    → bavail ≤ bfree
    → (blocks - bfree) * b + bavail * b ≤ blocks * b
shares blocks bfree bavail b h k =
    let one : (blocks - bfree + bavail) * b ≡ (blocks - bfree) * b + bavail * b =
      add-mul (blocks - bfree) bavail b in
    let all = mul-le-mul_right {m = blocks - bfree + bavail} {n = blocks} b (omega arith) in
    omega arith

module _ (statfs : Text → Option Statfs) (volume_id volume_path : Text) (sfs : Statfs) (b : ℕ) where
  -- For a volume whose size in bytes and whose number of files fit an int64, with no more free
  -- blocks than blocks, available blocks than free ones and free files than files: the reported
  -- numbers are exact, used and available bytes do not exceed the total, and used and available
  -- files add up to it.
  pub node_get_volume_stats_lem :
      {S : Type 0} (s : S)
      → (volume_id == []) ≡ false
      → (volume_path == []) ≡ false
      → statfs volume_path ≡ some sfs
      → sfs.bsize ≡ pos b
      → 0 < b
      → sfs.blocks * b < 2 ^ 63
      → sfs.bfree ≤ sfs.blocks
      → sfs.bavail ≤ sfs.bfree
      → sfs.files < 2 ^ 63
      → sfs.ffree ≤ sfs.files
      → (used available : ℕ) × (node_get_volume_stats statfs volume_id volume_path s ≡ (
        ok (
            record {
              unit = bytes;
              total = pos (sfs.blocks * b);
              used = pos used;
              available = pos available;
            }
            ∷ record {
              unit = inodes;
              total = pos sfs.files;
              used = pos (sfs.files - sfs.ffree);
              available = pos sfs.ffree;
            }
            ∷ []),
        s,
      ))
        × (used ≡ (sfs.blocks - sfs.bfree) * b)
        × (available ≡ sfs.bavail * b)
        × (used + available ≤ sfs.blocks * b)
  unfolding node_get_volume_stats usage
  node_get_volume_stats_lem s e f found size positive fits free avail files ffree =
      let small : sfs.blocks ≤ sfs.blocks * b = le-mul_of_pos_right sfs.blocks positive in
      let sum = shares sfs.blocks sfs.bfree sfs.bavail b free avail in
      (
        (sfs.blocks - sfs.bfree) * b,
        sfs.bavail * b,
        rw (
          e,
          f,
          found,
          size,
          sub_uint64-le sfs.blocks sfs.bfree free (omega arith),
          to_int64-pos sfs.blocks (omega arith),
          to_int64-pos (sfs.blocks - sfs.bfree) (omega arith),
          to_int64-pos sfs.bavail (omega arith),
          times64-pos sfs.blocks b fits,
          times64-pos (sfs.blocks - sfs.bfree) b (omega arith),
          times64-pos sfs.bavail b (omega arith),
          sub_uint64-le sfs.files sfs.ffree ffree (omega arith),
          to_int64-pos sfs.files files,
          to_int64-pos (sfs.files - sfs.ffree) (omega arith),
          to_int64-pos sfs.ffree (omega arith),
        ),
        refl,
        refl,
        sum,
      )
