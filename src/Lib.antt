-- ===== src/Lib.antt =====
-- Verification of csi-hostpath, a driver of the container storage interface (CSI) whose volumes are
-- directories below /opt/csi-hostpath on the nodes of a cluster.
--
-- The program. Kubernetes calls the controller (pkg/driver/controller.go, group_controller.go).
-- It checks a request, looks up claims, volumes and nodes in the cluster, opens a connection to
-- the node (pkg/client/grpc.go), asks there for the volume and has it made, deleted or changed
-- where that is needed. On the node, the agent (pkg/driver/agent.go) mounts a volume for a pod.
-- The node's service (pkg/server/server.go) runs a command (pkg/server/hostpath_commands.go) on
-- the node's file system: a volume is a directory with the file meta.json and the directory
-- mountpoint.
--
-- The files.
-- - Base: shared names and helpers. Tests, Lists, Dict (a Go map), Int (int64 and uint64), Calls
--   (the outcome of a call, and calls over a state).
-- - FileSystem: the part of Go's os, io and filepath that the commands call, over an explicit
--   tree of files. Laws, Quiet and Calm are about calls that do not fail, Preserves and Frame
--   about what a call leaves alone. Unique, Entries, Way and Leads are about trees with one node
--   at a path, the entries of a directory, and the directories that are made on the way to one.
-- - Volume: the record Vol of pkg/lib/parser.go and its message. Volume/Attributes: the
--   attributes of a logical volume, of the same file. Volume/Codec: what is used of
--   encoding/json, as an interface with laws.
-- - HostPath: pkg/server/hostpath_commands.go. getVolMeta is get_vol_meta, ListVol list_vol,
--   CreateVol create_vol, RemoveVol remove_vol, CloneVol clone_vol, ExpandVol expand_vol,
--   CreateSnapshot create_snapshot, RemoveSnapshot remove_snapshot. Frame, Lifecycle, Quiet and
--   Unique hold theorems about the metadata; CopyPaths, Walk, Data, Below and Clones about the
--   data that a clone or a snapshot holds.
-- - Service: the messages of pkg/lib/vol.pb.go and the handlers of pkg/server/server.go.
--   Service/Start: its Start.
-- - Client: the interface Connection and the record VolOptions of pkg/client/grpc.go.
--   Client/Remote: the connection that calls the service of a node. Client/Listing,
--   Client/Groups, Client/Nodes and Client/Copies see its calls, where none fails, as operations
--   on the volumes of a group (`view`), Client/Tidy and Client/Requests sequences of them.
--   Client/Connect: the loop of connect.
-- - Cluster: what is read of Kubernetes, and the functions of pkg/utils/common.go and
--   pkg/driver/utils.go that read it.
-- - Controller: pkg/driver/controller.go. Capacity has getRoundedCapacity, Requests the messages
--   and the checks of them (with pkg/driver/params.go), Volumes the handlers CreateVolume,
--   DeleteVolume and ControllerExpandVolume, Snapshots CreateSnapshot and DeleteSnapshot, Groups
--   the handlers of pkg/driver/group_controller.go, Lists the handlers that only read. Checks is
--   about the checks, Connections counts connections, Returns has lemmas about handlers that
--   return, Nodes puts the controller on the connection that calls the nodes, with its children
--   Deletion, Growth, Snapshots, Sources (volumes from a snapshot or a clone), Removals, Groups
--   and Repeats (a request that is sent again). Groups/Removal compares the deletion of a group
--   with that of its snapshots, Params has NewSnapshotParams. Lists/Opened and Lists/Counted
--   count connections, too, Lists/Entries and Lists/Wanted are about what is listed.
-- - Agent: the handlers of pkg/driver/agent.go, over the parameter `Mounter`, which stands for
--   k8s.io/mount-utils and the operating system. Mounts is about the table of mounts, Stats has
--   NodeGetVolumeStats, Info NodeGetInfo.
-- - Driver: pkg/driver/driver.go, identity.go and grpc.go. Driver/Endpoint: parseEndpoint.
--   Driver/Serve: serve and logGRPC. Driver/Wait: the group that Run waits for, as a step
--   relation. Driver/Config: pkg/config/config.go, the flags of cmd/csi-plugin/main.go and
--   NewNodeServer. Driver/Version: pkg/version/version.go, over what a build has (`Build`).
-- - Tool: pkg/utils/os_tool.go and the calls of pkg/utils/common.go behind it.
-- - Tests: test data, tests, and the theorems at concrete inputs.
--
-- How it is modelled. A call is a function from a state to an outcome (a result, an error or a
-- panic) and a state; what was written before an error stays written. The state of a node is
-- its tree of files with a schedule of faults: each system call takes the next entry of the
-- schedule, which says whether it fails, and how many bytes a failing write has written. A
-- schedule that has ended lets all calls succeed (`quiet`). A path is the list of its
-- components. The components "." and ".." are not resolved as Go and the operating system
-- resolve them, so that a plain name (`IsName`) is none of them, and a theorem that says where
-- a path leads asks for plain names. filepath.Walk reads the tree in one call, a read that
-- fails gives nothing, and an os.RemoveAll that fails has removed nothing, where the program
-- may leave part of the work. Every loop is a recursion on a list, but that of connect, which
-- runs on fuel, one unit for each change of the connection's state; a unit more than the rounds
-- before the time is over is enough. The state of the controller is that of all nodes with the
-- number of open connections. The clock of the cluster shows the time of the one request that
-- is handled. The order in which Go visits a map is any function, and a theorem asks that it
-- visits every entry where that matters. Texts are lists of bytes, and strings.ToLower is that
-- of ASCII. The texts of the controller's errors are left out, their codes are kept. uint64 and
-- int64 wrap.
--
-- Not modelled: the texts of logs, tracing and what the metrics count; the permissions and modes
-- of files; the closing of files, and the failure of a Stat on an open file; the reading of the
-- command line and the transport of gRPC; the informers that fill the listers; the handlers that
-- answer "unimplemented"; pkg/signals. Code of third parties is a parameter: the cluster,
-- encoding/json, net.ParseIP, grpc.Dial, the network, the registry of metrics, the mounter,
-- statfs, other programs, the version of the package that the identity asks, and the order in
-- which Go visits a map.
pub mod Base
pub mod FileSystem
pub mod Volume
pub mod HostPath
pub mod Service
pub mod Client
pub mod Cluster
pub mod Controller
pub mod Agent
pub mod Driver
pub mod Tests
pub mod Tool
