-- ===== src/Controller/Checks.antt =====
-- Which requests pass the checks of the controller.
use csi_hostpath.Base.{
  ℕ, ◌≡◌, ◌≢◌, ◌↔◌, ◌⊎◌, inl, refl, Option, none, some, List, [], ◌∷◌, Bool, true, ◌&&◌, ◌==◌,
  list_eq, nat_eq, arith, list_beq, Text, if◌then◌else◌,
}
use csi_hostpath.Controller.{Code, invalid_argument}
use csi_hostpath.Controller.Requests.{
  AccessType, no_access_type, block, mount, VolumeCapability, CreateVolumeRequest, member,
  mode_error, type_error, validate_supported_volume_capabilities, validate_all, validate_request,
  validate_volume_create_req, is_valid_volume_capabilities, get_mode,
}

-- A capability for one node to read and write, as a block device or a file system; the access mode
-- may be left out.
abbrev pub IsSupported : VolumeCapability → Type 0
IsSupported c =
    ((c.access_mode ≡ none) ⊎ (c.access_mode ≡ some 1)) × (c.access_type ≢ no_access_type)

abbrev pub AllSupported : List VolumeCapability → Type 0
AllSupported [] = Unit
AllSupported (c ∷ cs) = IsSupported c × AllSupported cs

mode_error_lem : (m : Option ℕ) → (mode_error m ≡ none) ↔ ((m ≡ none) ⊎ (m ≡ some 1))
unfolding mode_error member
mode_error_lem none = (λ e. inl refl, λ h. refl)
mode_error_lem (some n) = ground arith

type_error_lem : (t : AccessType) → (type_error t ≡ none) ↔ (t ≢ no_access_type)
type_error_lem no_access_type = (λ e. cc, λ h. absurd (h refl))
type_error_lem block = (λ e. cc, λ h. refl)
type_error_lem (mount fs_type flags) = (λ e. cc, λ h. refl)

both :
    (o p : Option Code)
    → ((elim o [ some c ↦ some c | none ↦ p ]) ≡ none) ↔ ((o ≡ none) × (p ≡ none))
both none p = (λ e. (refl, e), λ h. h.1)
both (some c) p = (λ e. cc, λ h. h.0)

one_lem : (c : VolumeCapability) → (validate_supported_volume_capabilities c ≡ none) ↔ IsSupported c
unfolding validate_supported_volume_capabilities
one_lem c =
    let (f, g) = both (mode_error c.access_mode) (type_error c.access_type) in
    let (m, m') = mode_error_lem c.access_mode in
    let (t, t') = type_error_lem c.access_type in
    (λ e. (m (f e).0, t (f e).1), λ h. g (m' h.0, t' h.1))

validate_all_lem : (cs : List VolumeCapability) → (validate_all cs ≡ none) ↔ AllSupported cs
unfolding validate_all
validate_all_lem [] = (λ e. tt, λ h. refl)
validate_all_lem (c ∷ cs) =
    let (f, g) = both (validate_supported_volume_capabilities c) (validate_all cs) in
    let (a, a') = one_lem c in
    let (r, r') = validate_all_lem cs in (λ e. (a (f e).0, r (f e).1), λ h. g (a' h.0, r' h.1))

create_lem :
    (name : Text) (cs : List VolumeCapability)
    → ((if name == []
          then some invalid_argument
          else (elim cs [ [] ↦ some invalid_argument | c ∷ cs ↦ validate_all (c ∷ cs) ]))
        ≡ none)
      ↔ ((name ≢ []) × (cs ≢ []) × AllSupported cs)
unfolding list_beq
create_lem [] cs = (λ e. cc, λ h. absurd (h.0 refl))
create_lem (x ∷ name) [] = (λ e. cc, λ h. absurd (h.1 refl))
create_lem (x ∷ name) (c ∷ cs) =
    let (f, g) = validate_all_lem (c ∷ cs) in (λ e. (λ p. cc, λ p. cc, f e), λ h. g h.2)

-- `validateVolumeCreateReq` lets a request pass exactly where it has a name and at least one
-- capability, and each capability is a block device or a file system and has the access mode
-- SINGLE_NODE_WRITER or none.
pub validate_volume_create_req_lem :
    (req : CreateVolumeRequest)
    → (validate_volume_create_req req ≡ none)
      ↔ ((req.name ≢ []) × (req.volume_capabilities ≢ []) × AllSupported req.volume_capabilities)
unfolding validate_volume_create_req validate_request member
validate_volume_create_req_lem req = create_lem req.name req.volume_capabilities

abbrev pub AllWriters : List VolumeCapability → Type 0
AllWriters [] = Unit
AllWriters (c ∷ cs) = (c.access_mode ≡ some 1) × AllWriters cs

writer_lem :
    (m : Option ℕ) (b : Bool)
    → (member (get_mode m) (1 ∷ []) && b ≡ true) ↔ ((m ≡ some 1) × (b ≡ true))
unfolding member
writer_lem none b = ground arith
writer_lem (some n) b = ground arith

-- `isValidVolumeCapabilities` holds exactly where each capability has the access mode
-- SINGLE_NODE_WRITER; no capability may leave its access mode out.
pub is_valid_volume_capabilities_lem :
    (cs : List VolumeCapability) → (is_valid_volume_capabilities cs ≡ true) ↔ AllWriters cs
unfolding is_valid_volume_capabilities
is_valid_volume_capabilities_lem [] = (λ e. tt, λ h. refl)
is_valid_volume_capabilities_lem (c ∷ cs) =
    let (f, g) = writer_lem c.access_mode (is_valid_volume_capabilities cs) in
    let (r, r') = is_valid_volume_capabilities_lem cs in
    (λ e. ((f e).0, r (f e).1), λ h. g (h.0, r' h.1))
