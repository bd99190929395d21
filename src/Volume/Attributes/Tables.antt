-- ===== src/Volume/Attributes/Tables.antt =====
-- The tables of keys of pkg/lib/parser.go against the constants of their types.
use csi_hostpath.Base.{ℕ, ◌+◌, ◌≡◌, refl, Text, text, [], ◌∷◌, ◌==◌, nat_eq, if◌then◌else◌}
use csi_hostpath.Volume.Attributes.{
  VolumeType, volume_type_code, volume_type_keys, mirrored, mirrored_without_sync, origin,
  origin_with_merging_snapshot, raid, raid_without_sync, snapshot, merging_snapshot, pv_move,
  virtual_mirror, virtual_raid_image, raid_image_out_of_sync, mirror_log, under_conversion, thin,
  thin_pool, thin_pool_data, raid_or_thin_pool_metadata, VolumePermissions, volume_permissions_code,
  volume_permissions_keys, writeable, read_only, read_only_activation, VolumeAllocation,
  volume_allocation_code, volume_allocation_keys, anywhere, contiguous, inherited, cling, normal,
  anywhere_locked, contiguous_locked, inherited_locked, cling_locked, normal_locked, VolumeState,
  volume_state_code, volume_state_keys, active, suspended, invalid_snapshot,
  invalid_suspended_snapshot, snapshot_merge_failed, suspended_snapshot_merge_failed,
  mapped_device_present_without_tables, mapped_device_present_with_inactive_table, VolumeTargetType,
  volume_target_type_code, volume_target_type_keys, mirror, raid_target, snapshot_target,
  thin_target, unknown_target, virtual_target,
}

-- How often a character stands in a table
unfoldable pub count : ℕ → Text → ℕ
count c [] = 0
count c (k ∷ keys) = let rest = count c keys in if k == c then rest + 1 else rest

-- Every constant of the type stands in the table once, and every key in the table is a constant.
abbrev pub Covers : {T : Type 0} → (T → ℕ) → Text → Type 0
Covers code [] = Unit
Covers {T} code (k ∷ keys) = ((t : T) × (code t ≡ k)) × Covers code keys

abbrev pub IsTableOf : {T : Type 0} → (T → ℕ) → Text → Type 0
IsTableOf {T} code keys = ((t : T) → count (code t) keys ≡ 1) × Covers code keys

volume_type_once : (t : VolumeType) → count (volume_type_code t) volume_type_keys ≡ 1
unfolding count text
volume_type_once mirrored = refl
volume_type_once _ = refl

volume_permissions_once :
    (t : VolumePermissions) → count (volume_permissions_code t) volume_permissions_keys ≡ 1
unfolding count text
volume_permissions_once writeable = refl
volume_permissions_once _ = refl

volume_allocation_once :
    (t : VolumeAllocation) → count (volume_allocation_code t) volume_allocation_keys ≡ 1
unfolding count text
volume_allocation_once anywhere = refl
volume_allocation_once _ = refl

volume_state_once : (t : VolumeState) → count (volume_state_code t) volume_state_keys ≡ 1
unfolding count text
volume_state_once active = refl
volume_state_once _ = refl

volume_target_type_once :
    (t : VolumeTargetType) → count (volume_target_type_code t) volume_target_type_keys ≡ 1
unfolding count text
volume_target_type_once mirror = refl
volume_target_type_once _ = refl

-- In the tables of the types, permissions, allocations, states and target types each constant of the
-- type stands exactly once, and nothing else stands in them.
tables_lem :
    IsTableOf volume_type_code volume_type_keys
    × IsTableOf volume_permissions_code volume_permissions_keys
    × IsTableOf volume_allocation_code volume_allocation_keys
    × IsTableOf volume_state_code volume_state_keys
    × IsTableOf volume_target_type_code volume_target_type_keys
unfolding text
tables_lem = (
  (
    volume_type_once,
    (
      (mirrored, refl),
      (
        (mirrored_without_sync, refl),
        (
          (origin, refl),
          (
            (origin_with_merging_snapshot, refl),
            (
              (raid, refl),
              (
                (raid_without_sync, refl),
                (
                  (snapshot, refl),
                  (
                    (merging_snapshot, refl),
                    (
                      (pv_move, refl),
                      (
                        (virtual_mirror, refl),
                        (
                          (virtual_raid_image, refl),
                          (
                            (raid_image_out_of_sync, refl),
                            (
                              (mirror_log, refl),
                              (
                                (under_conversion, refl),
                                (
                                  (thin, refl),
                                  (
                                    (thin_pool, refl),
                                    (
                                      (thin_pool_data, refl),
                                      ((raid_or_thin_pool_metadata, refl), tt),
                                    ),
                                  ),
                                ),
                              ),
                            ),
                          ),
                        ),
                      ),
                    ),
                  ),
                ),
              ),
            ),
          ),
        ),
      ),
    ),
  ),
  (
    volume_permissions_once,
    ((writeable, refl), ((read_only, refl), ((read_only_activation, refl), tt))),
  ),
  (
    volume_allocation_once,
    (
      (anywhere, refl),
      (
        (contiguous, refl),
        (
          (inherited, refl),
          (
            (cling, refl),
            (
              (normal, refl),
              (
                (anywhere_locked, refl),
                (
                  (contiguous_locked, refl),
                  ((inherited_locked, refl), ((cling_locked, refl), ((normal_locked, refl), tt))),
                ),
              ),
            ),
          ),
        ),
      ),
    ),
  ),
  (
    volume_state_once,
    (
      (active, refl),
      (
        (suspended, refl),
        (
          (invalid_snapshot, refl),
          (
            (invalid_suspended_snapshot, refl),
            (
              (snapshot_merge_failed, refl),
              (
                (suspended_snapshot_merge_failed, refl),
                (
                  (mapped_device_present_without_tables, refl),
                  ((mapped_device_present_with_inactive_table, refl), tt),
                ),
              ),
            ),
          ),
        ),
      ),
    ),
  ),
  (
    volume_target_type_once,
    (
      (mirror, refl),
      (
        (raid_target, refl),
        (
          (snapshot_target, refl),
          ((thin_target, refl), ((unknown_target, refl), ((virtual_target, refl), tt))),
        ),
      ),
    ),
  ),
)
