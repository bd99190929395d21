-- ===== src/Client.antt =====
-- pkg/client/grpc.go: the connection to a node, as the interface that the controller uses, and its
-- implementation by remote calls.
pub mod Remote
pub mod Connect
pub mod Listing
pub mod Groups
pub mod Nodes
pub mod Copies
pub mod Tidy
pub mod Requests
use csi_hostpath.Base.{
  ℕ, Option, none, some, List, [], ◌∷◌, Text, ◌⊎◌, ◌==◌, list_eq, nat_eq, if◌then◌else◌,
}
use csi_hostpath.Base.Int.{ℤ}
use csi_hostpath.Volume.{LogicalVolume}

-- `VolOptions`
pub record VolOptions : Type 0 where
  pub volume_group : Text
  pub name : Text
  pub size : ℕ
  pub tags : List Text
  pub clone_name : Text
  pub snapshot_name : Text

-- `&client.VolOptions{}`
abbrev pub no_options : VolOptions
no_options = record {
  volume_group = [];
  name = [];
  size = 0;
  tags = [];
  clone_name = [];
  snapshot_name = [];
}

-- `Connection`, for the connections to all nodes: a call takes the address of the node first. The
-- closing of a connection is counted by the controller. A call returns the text of an error, or its
-- result; it never panics, whatever becomes of the node.
pub record Connection : Type 1 where
  pub State : Type 0
  pub get_volume : Text → Text → Text → State → (Text ⊎ Option LogicalVolume) × State
  pub create_volume : Text → VolOptions → State → (Text ⊎ Text) × State
  pub delete_volume : Text → Text → Text → State → (Text ⊎ Unit {0}) × State
  pub create_snapshot : Text → Text → Text → Text → State → (Text ⊎ ℤ) × State
  pub delete_snapshot : Text → Text → Text → State → (Text ⊎ Unit {0}) × State
  pub expand_volume : Text → Text → Text → ℕ → State → (Text ⊎ Unit {0}) × State

-- The loop of `GetVolume`: the first volume of that name
unfoldable pub find_volume : Text → List LogicalVolume → Option LogicalVolume
find_volume id [] = none
find_volume id (v ∷ vs) = if v.name == id then some v else find_volume id vs
