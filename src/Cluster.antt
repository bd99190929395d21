-- ===== src/Cluster.antt =====
-- What the controller reads of Kubernetes, whose client is not part of the repository: the objects as
-- the code looks at them, and the lookups as a parameter. pkg/utils/common.go and pkg/driver/utils.go:
-- what is read of the objects.
use csi_hostpath.Base.{
  ℕ, ◌≡◌, refl, sym, ap, ◌∙◌, append_assoc, Bool-cases, inl, inr, Option, none, some, List, [], ◌∷◌,
  ◌++◌, Bool, Text, text, nat_eq, list_eq, ◌==◌, if◌then◌else◌, replace_first,
}
use csi_hostpath.Base.Int.{ℤ}
use csi_hostpath.Base.Dict.{Dict, lookup}
use csi_hostpath.Service.{lvmd_port, service_address}

-- `NodeSelectorRequirement`
pub record MatchExpression : Type 0 where
  pub key : Text
  pub values : List Text

-- `CSIPersistentVolumeSource`
pub record CsiSource : Type 0 where
  pub driver : Text
  pub volume_handle : Text
  pub volume_attributes : Dict Text Text

-- `PersistentVolume`: its CSI source, if it has one, and the match expressions of each term that its
-- node affinity requires. `encoded_size` is what its method `Size` returns, the length of the object's
-- encoding.
pub record PersistentVolume : Type 0 where
  pub name : Text
  pub csi : Option CsiSource
  pub phase : Text
  pub encoded_size : ℕ
  pub node_affinity : Option (Option (List (List MatchExpression)))

-- `NodeAddress`
pub record NodeAddress : Type 0 where
  pub type : Text
  pub address : Text

-- A `net.IP`: whether `To4` has a result, and `String`
pub record Ip : Type 0 where
  pub is_v4 : Bool
  pub string : Text

-- `VolumeSnapshotContentStatus`
pub record SnapshotContentStatus : Type 0 where
  pub ready_to_use : Option Bool
  pub snapshot_handle : Option Text

-- `VolumeSnapshotContent`: the driver, the source's volume handle and the name of the snapshot that its
-- specification has, and its status. What is a pointer may be nil.
pub record VolumeSnapshotContent : Type 0 where
  pub name : Text
  pub driver : Text
  pub volume_handle : Option Text
  pub snapshot_ref_name : Text
  pub status : Option SnapshotContentStatus

-- `none` of a lookup is its error. `persistent_volume` looks into the cache that the informers fill,
-- `read_persistent_volume` asks the API server, with the client that is there if `has_client`. A
-- snapshot content has a volume handle, unless it is made for a snapshot that was there before. The
-- order in which Go visits a map is not specified: `range_volumes` and `range_contents` are any
-- functions, and a theorem for which it matters that Go visits every entry asks for it. `dial` returns
-- the error of `grpc.Dial`. `now` is the time at which the one request that is handled reads the clock;
-- a later request has a cluster of its own.
pub record Cluster : Type 0 where
  pub persistent_volume : Text → Option PersistentVolume
  pub has_client : Bool
  pub read_persistent_volume : Text → Option PersistentVolume
  pub persistent_volumes : Option (List PersistentVolume)
  pub range_volumes : Dict Text PersistentVolume → List PersistentVolume
  pub snapshot_contents : Option (List VolumeSnapshotContent)
  pub range_contents : Dict Text VolumeSnapshotContent → List VolumeSnapshotContent
  pub claim_annotations : Text → Text → Option (Dict Text Text)
  pub node : Text → Option (List NodeAddress)
  pub snapshot_content : Text → Option (Option Text)
  pub parse_ip : Text → Option Ip
  pub dial : Text → Option Text
  pub now : ℤ
  pub snapshot_prefix : Text

abbrev pub vg_name_key : Text
unfolding text
vg_name_key = text "csi.io/volume-group-name"

-- `config.LocalProvider`
abbrev pub local_provider : Text
unfolding text
local_provider = text "hostpath.csi.ake.io"

abbrev pub kubernetes_node_identity_key : Text
unfolding text
kubernetes_node_identity_key = text "kubernetes.io/hostname"

-- `GetVGNameFromCsiPV`
unfoldable pub get_vg_name_from_csi_pv : PersistentVolume → Text
unfolding lookup
get_vg_name_from_csi_pv pv = elim pv.csi [
  | none ↦ []
  | some source ↦ elim (lookup vg_name_key source.volume_attributes) [ some v ↦ v | none ↦ [] ]
]

-- `GetNodeNameFromCsiPV`
abbrev node_of_expression : List MatchExpression → Text
node_of_expression [] = []
node_of_expression (m ∷ _) =
    if m.key == kubernetes_node_identity_key then elim m.values [ [] ↦ [] | n ∷ _ ↦ n ] else []

abbrev node_of_terms : Option (List (List MatchExpression)) → Text
node_of_terms none = []
node_of_terms (some []) = []
node_of_terms (some (t ∷ _)) = node_of_expression t

unfoldable pub get_node_name_from_csi_pv : PersistentVolume → Text
get_node_name_from_csi_pv pv = elim pv.node_affinity [ none ↦ [] | some a ↦ node_of_terms a ]

-- `GetVolumeSnapshotContent`
unfoldable pub get_volume_snapshot_content : Cluster → Text → Option (Option Text)
unfolding replace_first text
get_volume_snapshot_content K snapshot_content_id =
    let prefix = if K.snapshot_prefix == [] then text "snap" else K.snapshot_prefix in
    K.snapshot_content (replace_first prefix (text "snapcontent") snapshot_content_id)

-- The first address of that type
unfoldable pub address_of : Text → List NodeAddress → Option Text
address_of t [] = none
address_of t (a ∷ rest) = if a.type == t then some a.address else address_of t rest

-- `GetNodeIP`: an address that cannot be parsed gives the nil address, and no error.
unfoldable pub get_node_ip : Cluster → List NodeAddress → Option (Option Ip)
unfolding address_of text
get_node_ip K addresses = elim (address_of (text "InternalIP") addresses) [
  | some a ↦ some (K.parse_ip a)
  | none ↦ elim (address_of (text "ExternalIP") addresses) [
    | some a ↦ some (K.parse_ip a)
    | none ↦ none
  ]
]

-- `getNodeAddr`, which is never asked for the host's name
abbrev address_text : Cluster → Option Ip → Text
unfolding text
address_text K none = text "[<nil>]:" ++ lvmd_port
address_text K (some ip) =
    if ip.is_v4
    then ip.string ++ text ":" ++ lvmd_port
    else text "[" ++ ip.string ++ text "]:" ++ lvmd_port

unfoldable pub get_node_addr : Cluster → List NodeAddress → Option Text
unfolding get_node_ip
get_node_addr K node = elim (get_node_ip K node) [
  | some ip ↦ some (address_text K ip)
  | none ↦ none
]

address_text-port :
    (K : Cluster) (ip : Option Ip)
    → (host : Text) × (address_text K ip ≡ host ++ service_address lvmd_port)
unfolding service_address text
address_text-port K none = (text "[<nil>]", refl)
address_text-port K (some ip) = elim (Bool-cases ip.is_v4) [
  | inl four ↦ (ip.string, rw four (append_assoc ip.string (text ":") lvmd_port))
  | inr six ↦ (
    text "[" ++ ip.string ++ text "]",
    rw six (
        ap (λ t. t ++ lvmd_port) (sym (append_assoc (text "[" ++ ip.string) (text "]") (text ":")))
        ∙ append_assoc ((text "[" ++ ip.string) ++ text "]") (text ":") lvmd_port),
  )
]

addressed :
    (K : Cluster) (found : Option (Option Ip)) (addr : Text)
    → (elim found [ some ip ↦ some (address_text K ip) | none ↦ none ]) ≡ some addr
    → (host : Text) × (addr ≡ host ++ service_address lvmd_port)
addressed K none addr e = absurd (cc e)
addressed K (some ip) addr e = let (host, at) = address_text-port K ip in (host, cc (e, at))

-- Every address of a node ends with a colon and the port of its service.
pub get_node_addr-port :
    (K : Cluster) (node : List NodeAddress) (addr : Text)
    → get_node_addr K node ≡ some addr
    → (host : Text) × (addr ≡ host ++ service_address lvmd_port)
unfolding get_node_addr
get_node_addr-port K node addr e = addressed K (get_node_ip K node) addr e
