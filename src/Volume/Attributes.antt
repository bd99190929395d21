-- ===== src/Volume/Attributes.antt =====
-- pkg/lib/parser.go: the attributes of a logical volume. A constant of Go is a character, and a table
-- of keys lists the characters of a type; any other character is a value of the type too, which the
-- data types leave out.
pub mod Tables
use csi_hostpath.Base.{
  ℕ, ◌≡◌, ◌≢◌, ◌↔◌, refl, Bool, true, false, Text, text, List, [], ◌∷◌, ◌==◌, nat_eq, arith,
  if◌then◌else◌,
}

pub data VolumeType : Type 0 where
  mirrored : VolumeType
  mirrored_without_sync : VolumeType
  origin : VolumeType
  origin_with_merging_snapshot : VolumeType
  raid : VolumeType
  raid_without_sync : VolumeType
  snapshot : VolumeType
  merging_snapshot : VolumeType
  pv_move : VolumeType
  virtual_mirror : VolumeType
  virtual_raid_image : VolumeType
  raid_image_out_of_sync : VolumeType
  mirror_log : VolumeType
  under_conversion : VolumeType
  thin : VolumeType
  thin_pool : VolumeType
  thin_pool_data : VolumeType
  raid_or_thin_pool_metadata : VolumeType

abbrev pub volume_type_code : VolumeType → ℕ
volume_type_code mirrored = b'm'
volume_type_code mirrored_without_sync = b'M'
volume_type_code origin = b'o'
volume_type_code origin_with_merging_snapshot = b'O'
volume_type_code raid = b'r'
volume_type_code raid_without_sync = b'R'
volume_type_code snapshot = b's'
volume_type_code merging_snapshot = b'S'
volume_type_code pv_move = b'p'
volume_type_code virtual_mirror = b'v'
volume_type_code virtual_raid_image = b'i'
volume_type_code raid_image_out_of_sync = b'I'
volume_type_code mirror_log = b'l'
volume_type_code under_conversion = b'c'
volume_type_code thin = b'V'
volume_type_code thin_pool = b't'
volume_type_code thin_pool_data = b'T'
volume_type_code raid_or_thin_pool_metadata = b'e'

abbrev pub volume_type_keys : Text
unfolding text
volume_type_keys = text "mMoOrRsSpviIlcVtTe"

pub data VolumePermissions : Type 0 where
  writeable : VolumePermissions
  read_only : VolumePermissions
  read_only_activation : VolumePermissions

abbrev pub volume_permissions_code : VolumePermissions → ℕ
volume_permissions_code writeable = b'w'
volume_permissions_code read_only = b'r'
volume_permissions_code read_only_activation = b'R'

abbrev pub volume_permissions_keys : Text
unfolding text
volume_permissions_keys = text "wrR"

pub data VolumeAllocation : Type 0 where
  anywhere : VolumeAllocation
  contiguous : VolumeAllocation
  inherited : VolumeAllocation
  cling : VolumeAllocation
  normal : VolumeAllocation
  anywhere_locked : VolumeAllocation
  contiguous_locked : VolumeAllocation
  inherited_locked : VolumeAllocation
  cling_locked : VolumeAllocation
  normal_locked : VolumeAllocation

abbrev pub volume_allocation_code : VolumeAllocation → ℕ
volume_allocation_code anywhere = b'a'
volume_allocation_code contiguous = b'c'
volume_allocation_code inherited = b'i'
volume_allocation_code cling = b'l'
volume_allocation_code normal = b'n'
volume_allocation_code anywhere_locked = b'A'
volume_allocation_code contiguous_locked = b'C'
volume_allocation_code inherited_locked = b'I'
volume_allocation_code cling_locked = b'L'
volume_allocation_code normal_locked = b'N'

abbrev pub volume_allocation_keys : Text
unfolding text
volume_allocation_keys = text "acilnACILN"

pub data VolumeState : Type 0 where
  active : VolumeState
  suspended : VolumeState
  invalid_snapshot : VolumeState
  invalid_suspended_snapshot : VolumeState
  snapshot_merge_failed : VolumeState
  suspended_snapshot_merge_failed : VolumeState
  mapped_device_present_without_tables : VolumeState
  mapped_device_present_with_inactive_table : VolumeState

abbrev pub volume_state_code : VolumeState → ℕ
volume_state_code active = b'a'
volume_state_code suspended = b's'
volume_state_code invalid_snapshot = b'I'
volume_state_code invalid_suspended_snapshot = b'S'
volume_state_code snapshot_merge_failed = b'm'
volume_state_code suspended_snapshot_merge_failed = b'M'
volume_state_code mapped_device_present_without_tables = b'd'
volume_state_code mapped_device_present_with_inactive_table = b'i'

abbrev pub volume_state_keys : Text
unfolding text
volume_state_keys = text "asISmMdi"

pub data VolumeTargetType : Type 0 where
  mirror : VolumeTargetType
  raid_target : VolumeTargetType
  snapshot_target : VolumeTargetType
  thin_target : VolumeTargetType
  unknown_target : VolumeTargetType
  virtual_target : VolumeTargetType

abbrev pub volume_target_type_code : VolumeTargetType → ℕ
volume_target_type_code mirror = b'm'
volume_target_type_code raid_target = b'r'
volume_target_type_code snapshot_target = b's'
volume_target_type_code thin_target = b't'
volume_target_type_code unknown_target = b'u'
volume_target_type_code virtual_target = b'v'

abbrev pub volume_target_type_keys : Text
unfolding text
volume_target_type_keys = text "mrstuv"

pub data VolumeHealth : Type 0 where
  healthy : VolumeHealth
  partial : VolumeHealth
  refresh_needed : VolumeHealth
  mismatches_exist : VolumeHealth
  writemostly : VolumeHealth

abbrev pub volume_health_code : VolumeHealth → ℕ
volume_health_code healthy = b'-'
volume_health_code partial = b'p'
volume_health_code refresh_needed = b'r'
volume_health_code mismatches_exist = b'm'
volume_health_code writemostly = b'w'

pub data VolumeFixedMinor : Type 0 where
  enabled : VolumeFixedMinor
  disabled : VolumeFixedMinor

abbrev pub volume_fixed_minor_code : VolumeFixedMinor → ℕ
volume_fixed_minor_code enabled = b'm'
volume_fixed_minor_code disabled = b'-'

-- `func (t VolumeFixedMinor) toProto() bool`
unfoldable pub volume_fixed_minor_to_proto : VolumeFixedMinor → Bool
volume_fixed_minor_to_proto t = volume_fixed_minor_code t == volume_fixed_minor_code enabled

pub data VolumeOpen : Type 0 where
  is_open : VolumeOpen
  is_not_open : VolumeOpen

abbrev pub volume_open_code : VolumeOpen → ℕ
volume_open_code is_open = b'o'
volume_open_code is_not_open = b'-'

-- `func (t VolumeOpen) toProto() bool`
unfoldable pub volume_open_to_proto : VolumeOpen → Bool
volume_open_to_proto t = volume_open_code t == volume_open_code is_open

pub data VolumeZeroing : Type 0 where
  is_zeroing : VolumeZeroing
  is_non_zeroing : VolumeZeroing

abbrev pub volume_zeroing_code : VolumeZeroing → ℕ
volume_zeroing_code is_zeroing = b'z'
volume_zeroing_code is_non_zeroing = b'-'

-- `func (t VolumeZeroing) toProto() bool`
unfoldable pub volume_zeroing_to_proto : VolumeZeroing → Bool
volume_zeroing_to_proto t = volume_zeroing_code t == volume_zeroing_code is_zeroing

pub data VolumeActivationSkipped : Type 0 where
  is_skipped : VolumeActivationSkipped
  is_not_skipped : VolumeActivationSkipped

abbrev pub volume_activation_skipped_code : VolumeActivationSkipped → ℕ
volume_activation_skipped_code is_skipped = b's'
volume_activation_skipped_code is_not_skipped = b'-'

-- `func (t VolumeActivationSkipped) toProto() bool`
unfoldable pub volume_activation_skipped_to_proto : VolumeActivationSkipped → Bool
volume_activation_skipped_to_proto t =
    volume_activation_skipped_code t == volume_activation_skipped_code is_skipped

pub record LvAttributes : Type 0 where
  pub type : VolumeType
  pub permissions : VolumePermissions
  pub allocation : VolumeAllocation
  pub fixed_minor : VolumeFixedMinor
  pub state : VolumeState
  pub open_state : VolumeOpen
  pub target_type : VolumeTargetType
  pub zeroing : VolumeZeroing
  pub health : VolumeHealth
  pub activation_skipped : VolumeActivationSkipped

-- `lib.PV`
pub record Pv : Type 0 where
  pub name : Text
  pub size : ℕ
  pub free_size : ℕ
  pub uuid : Text
  pub tags : List Text
  pub vg_name : Text
