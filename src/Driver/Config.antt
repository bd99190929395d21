-- ===== src/Driver/Config.antt =====
-- pkg/config/config.go, cmd/csi-plugin/main.go and `NewNodeServer` of pkg/driver/agent.go: the configuration of a plugin, and what is set up by it. The help texts of the
-- flags and the reading of the command line are not modelled.
use csi_hostpath.Base.{
  Bool, true, false, not, ◌&&◌, ◌≡◌, refl, ap, sym, err, inl, inr, Bool-cases, Option, none, some,
  List, [], ◌∷◌, ◌++◌, Text, text, Exec, pure, fail, crash, ok, ◌>>◌, ◌==◌, list_eq, nat_eq,
  if◌then◌else◌,
}
use csi_hostpath.Base.Int.{ℤ, pos}
use csi_hostpath.Cluster.{local_provider, Cluster, NodeAddress, get_node_addr, get_node_addr-port}
use csi_hostpath.Controller.Returns.{bind_ok}
use csi_hostpath.Service.{lvmd_port, service_address}
use csi_hostpath.Driver.{unavailable, get_plugin_info}
use csi_hostpath.Driver.Version.{Build, current}

pub record Config : Type 0 where
  pub driver_name : Text
  pub plugin_type : Text
  pub version : Text
  pub endpoint : Text
  pub node_id : Text
  pub set_io_limits : Bool
  pub container_runtime : Text
  pub r_iops_limit_per_gb : Option (List Text)
  pub w_iops_limit_per_gb : Option (List Text)
  pub r_bps_limit_per_gb : Option (List Text)
  pub w_bps_limit_per_gb : Option (List Text)
  pub listen_address : Text
  pub metrics_path : Text
  pub disable_exporter_metrics : Bool
  pub grpc_connection_timeout : ℤ
  pub kube_api_qps : ℤ
  pub kube_api_burst : ℤ

-- `Default`
abbrev pub default : Config
default = record {
  driver_name = [];
  plugin_type = [];
  version = [];
  endpoint = [];
  node_id = [];
  set_io_limits = false;
  container_runtime = [];
  r_iops_limit_per_gb = none;
  w_iops_limit_per_gb = none;
  r_bps_limit_per_gb = none;
  w_bps_limit_per_gb = none;
  listen_address = [];
  metrics_path = [];
  disable_exporter_metrics = false;
  grpc_connection_timeout = pos 0;
  kube_api_qps = pos 0;
  kube_api_burst = pos 0;
}

-- `main`: the flags write their default values into the configuration.
unfoldable pub with_flags : Config → Config
unfolding text
with_flags config = record config {
  node_id = text "mock-node";
  version = [];
  endpoint = text "unix://csi/csi.sock";
  driver_name = local_provider;
  plugin_type = text "controller";
  set_io_limits = false;
  container_runtime = text "containerd";
  listen_address = [];
  metrics_path = text "/metrics";
  disable_exporter_metrics = true;
  kube_api_qps = pos 0;
  kube_api_burst = pos 0;
  r_iops_limit_per_gb = some [];
  w_iops_limit_per_gb = some [];
  r_bps_limit_per_gb = some [];
  w_bps_limit_per_gb = some [];
}

-- `run`, up to the call of `New`
unfoldable pub with_version : Build → Config → Config
unfolding current
with_version build config =
    if config.version == [] then record config { version = current build } else config

pub data Collector : Type 0 where
  process_collector : Collector
  go_collector : Collector

pub data Effect : Type 0 where
  collected : Collector → Effect
  handled : Text → Effect
  metrics_served : Text → Effect
  volumes_served : Text → Effect

-- What `registry.Register` returns, where `none` is no error, and whether `http.Handle` takes a pattern
-- beside those that it has: else it panics.
pub record Exporter : Type 0 where
  pub register : Collector → Option Text
  pub takes : List Effect → Text → Bool

abbrev Start : Type 0
Start = Exec (List Effect) Text (Unit {0})

abbrev effect : Effect → Start
effect e es = (ok tt, es ++ (e ∷ []))

abbrev register : Exporter → Collector → Start
register X c = elim (X.register c) [ none ↦ effect (collected c) | some e ↦ fail e ]

abbrev handle : Exporter → Text → Start
handle X pattern es = if X.takes es pattern then effect (handled pattern) es else crash es

-- `registerCollectors`
unfoldable pub register_collectors : Exporter → Bool → Start
register_collectors X disable_exporter_metrics =
    if disable_exporter_metrics
    then pure tt
    else (do register X process_collector; register X go_collector)

-- `exposeMetrics`: its error ends the process.
unfoldable pub expose_metrics : Exporter → Text → Text → Bool → Start
unfolding register_collectors text
expose_metrics X listen_addr metrics_path disable_exporter_metrics = do
  register_collectors X disable_exporter_metrics
  handle X metrics_path
  handle X (text "/")
  effect (metrics_served listen_addr)

abbrev metrics : Exporter → Config → Start
metrics X config =
    if not (config.listen_address == [])
    then expose_metrics X config.listen_address config.metrics_path config.disable_exporter_metrics
    else pure tt

-- `NewNodeServer`
unfoldable pub new_node_server : Exporter → Config → Start
unfolding expose_metrics service_address
new_node_server X config = do metrics X config; effect (volumes_served (service_address lvmd_port))

-- The answer of `GetPluginInfo` after `run` has filled in the version: for a driver with a name, the
-- version that the other package has, whatever version the configuration names, and an error exactly
-- where the configuration names none and the build has none.
get_plugin_info-with_version :
    {S : Type 0} (build : Build) (config : Config) (other : Text) (s : S)
    → (config.driver_name == []) ≡ false
    → get_plugin_info other
        (with_version build config).driver_name
        (with_version build config).version
        s
      ≡ (if config.version == [] && current build == []
          then (err unavailable, s)
          else (ok (record { name = config.driver_name; vendor_version = other }), s))
unfolding get_plugin_info with_version
get_plugin_info-with_version build config other s named = elim (Bool-cases (config.version == [])) [
  | inl blank ↦ elim (Bool-cases (current build == [])) [
    | inl unknown ↦ rw (blank, named, unknown) refl
    | inr known ↦ rw (blank, named, known) refl
  ]
  | inr given ↦ rw (given, named) (rw given refl)
]

-- Where `NewNodeServer` returns, what it has set up last is the node's service, at a colon and a port;
-- and every address that the controller makes of a node ends with that colon and port.
lvmd_port_agrees :
    (X : Exporter) (config : Config) (es es' : List Effect) (K : Cluster) (node : List NodeAddress)
    (addr : Text)
    → new_node_server X config es ≡ (ok tt, es')
    → get_node_addr K node ≡ some addr
    → (before : List Effect) × (port : Text) × (host : Text) × (es'
        ≡ before ++ (volumes_served (service_address port) ∷ []))
      × (addr ≡ host ++ service_address port)
unfolding new_node_server
lvmd_port_agrees X config es es' K node addr run dialled =
    let (_, before, _, last) =
      bind_ok (metrics X config) (λ _. effect (volumes_served (service_address lvmd_port))) es es'
        tt run in
    let (host, at) = get_node_addr-port K node addr dialled in
    (before, lvmd_port, host, sym (ap (λ r. r.1) last), at)
