-- ===== src/Driver.antt =====
-- pkg/driver/driver.go, pkg/driver/identity.go and pkg/driver/grpc.go: which services a plugin has, what
-- it says of itself, and which of its calls are logged.
pub mod Endpoint
pub mod Serve
pub mod Wait
pub mod Config
pub mod Version
use csi_hostpath.Base.{
  ℕ, Bool, true, false, not, ◌||◌, Option, none, some, List, [], ◌∷◌, Text, text, Exec, pure, guard,
  ◌>>=◌, ◌>>◌, ◌==◌, list_eq, nat_eq, if◌then◌else◌, contains,
}
use csi_hostpath.Driver.Version.{Build, current}

-- The services of a `CSIDriver`; that of the groups is the controller's.
pub record Services : Type 0 where
  pub identity : Bool
  pub controller : Bool
  pub group_controller : Bool
  pub node : Bool

-- `New`, by the type of the plugin
unfoldable pub new : Text → Services
unfolding text
new plugin_type = record {
  identity = true;
  controller = plugin_type == text "controller";
  group_controller = plugin_type == text "controller";
  node = plugin_type == text "agent";
}

pub data IdentityError : Type 0 where
  unavailable : IdentityError

pub record GetPluginInfoResponse : Type 0 where
  pub name : Text
  pub vendor_version : Text

-- `GetPluginInfo` of `config.DriverName` and `config.Version`, where `current` is what `version.Current`
-- of github.com/openebs/lvm-localpv returns, and not that of this repository
unfoldable pub get_plugin_info :
    {S : Type 0} → Text → Text → Text → Exec S IdentityError GetPluginInfoResponse
get_plugin_info current driver_name version = do
  guard (not (driver_name == [])) unavailable
  guard (not (version == [])) unavailable
  pure (record { name = driver_name; vendor_version = current })

-- `GetPluginCapabilities`: CONTROLLER_SERVICE, VOLUME_ACCESSIBILITY_CONSTRAINTS and
-- GROUP_CONTROLLER_SERVICE, whatever the type of the plugin
abbrev pub get_plugin_capabilities : List ℕ
get_plugin_capabilities = 1 ∷ 2 ∷ 3 ∷ []

-- `isInfotrmativeLog`
unfoldable pub is_informative_log : Text → Bool
unfolding contains text
is_informative_log info =
    not (contains (text "NodeGetVolumeStats") info || contains (text "NodeGetCapabilities") info)

-- `Probe`
abbrev pub probe : {S : Type 0} → Exec S IdentityError (Unit {0})
probe = pure tt

-- `GetVolumeCapabilityAccessModes`: SINGLE_NODE_WRITER
abbrev pub get_volume_capability_access_modes : List ℕ
get_volume_capability_access_modes = 1 ∷ []
