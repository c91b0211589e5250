-- ===== src/Lib.antt =====
-- Unified Clustering Tools: applications and compositors run on the nodes of a cluster, under one
-- lifecycle manager.
--
-- A client (internal/ucl-client/dcmapi, cmd/ucl-api-comm, pkg/ucl-client-lib) calls the manager
-- (cmd/ucl-lifecycle-manager) by gRPC. The manager enters the application in its table of tasks, asks
-- the nodes for the document of the application, takes the document apart into one command for each
-- node, and sends each command to its node (cmd/ucl-node) over a connection of framed messages
-- (internal/ucl/ucl_node_conn.go). A node makes of its command a process with arguments and an
-- environment. The keeper (internal/ucl/ucl_consistency_keeper.go) runs on both sides of the
-- connection: it holds a process that waits for the others back until all nodes have counted, and
-- gives up a node that does not answer.
--
-- The modules:
-- Base: tests, texts as lists of bytes, integers with their decimal form, and list lemmas.
-- Wire: internal/ucl/ucl_node_conn.go. A connection is the list of the segments that its reads find,
--   or the bytes that were sent and the number of writes that still succeed.
-- Settings: internal/ucl/common_settings.go.
-- Tasks: the functions on `commTaskCtxMap` of cmd/ucl-lifecycle-manager/ucl_lifecycle_manager.go, on a
--   record of the table, the next context and the cancelled contexts. Each runs under the mutex and is
--   one step.
-- Server: the gRPC handlers of the same file. What the rest of the manager does while a handler waits
--   is a function that the handler takes; Server.System has the handlers and dispatches as the steps
--   of one system.
-- Keeper: internal/ucl/ucl_consistency_keeper.go and the loops of `handleNodeConnection` and
--   `handleConnection`. A `select` is a list of the events that it finds. Keeper.Barrier is the start
--   of a task on all its nodes as one system, with the queues between the goroutines: Keeper.Barrier.Order is
--   about what cannot happen in it, and Keeper.Barrier.Progress about a run that comes to its end.
-- Screen: internal/ucl/virtual_screen_def.go, with `VScrnDef` as a record.
-- Document: what `json.Unmarshal` gives for a document, and the type assertions on it, whose failure
--   is the result `panic`.
-- Route: `expandAliasNode`, `getDistribNode`, `getConnectableNode`, `removeDisconnectNode`,
--   `splitCommandforEachNode`, `getDistribNodeAddr`, `dispatchCommToNodes` and `getAppName` of
--   cmd/ucl-lifecycle-manager/ucl_lifecycle_manager.go. Route.Spec says on an application, instead of its
--   document, which commands go to which nodes.
-- Gather: `getAppCmd`, `getAppListFromEachNode` and what they call in the same file. What the goroutines
--   for the nodes put on the channel is a list; Gather.Compositors is `generateLaunchCompsitorsComm`, and
--   Gather.Launched follows its document to the nodes.
-- Node: cmd/ucl-node/ucl_node.go: the environment of a process (Env), its command line (Command), the
--   applications of a node (Apps), its connections (Serve). Node.Argv takes a command line apart as
--   `TimingWrapper` does.
-- Client: internal/ucl-client/dcmapi/dcm_client_api.go, and in ApiComm cmd/ucl-api-comm/ucl_api_comm.go, over what
--   the packages `net` and `grpc` answer; Client.Memory and Client.Library are the memory and the codes of
--   pkg/ucl-client-lib/ucl_client.go, Client.Protocol is internal/ucl-client/dcmapi/dcmapi_protocol.go.
-- Document.Decode is what `json.Marshal` and `json.Unmarshal` do between a document and a struct; Node.Decode
--   reads a command into the structs of cmd/ucl-node, and Delivery puts the manager and the nodes together: an
--   application from the text of its document to the processes of its nodes, and the list of applications.
--   Delivery.Transport is the way of a text over a connection between them, by the functions of Wire; the texts
--   are made and taken apart by the functions of the record `Json`, which stands for `encoding/json`.
-- Connection: `handleNodeConnection` whole, with its loop on bytes, and the two goroutines of a node that write on
--   the connection of a command, as steps.
-- Flags: how Go's package `flag` takes a command line apart.
-- Renderer: cmd/ucl-virtio-gpu-wl-recv/ucl_virtio_gpu_wl_recv.go and
--   cmd/ucl-virtio-gpu-rvgpu-compositor/ucl_virtio_gpu_rvgpu_compositor.go.
-- Sender: cmd/ucl-virtio-gpu-wl-send/ucl_virtio_gpu_wl_send.go: the polling loops and the index of the
--   card; Sender.Sockets is `isConnectionEstablished`; Sender.Run is `main` as the list of what it does,
--   over a record of what its host answers.
-- Signals: internal/ucl/ucl_proc_sighandler.go, over what the probes of the processes answer.
-- Log: internal/ulog/ulog.go, and the flags of the programs for it.
-- Startup: the starts of a node and of the manager.
--
-- Bounds and fuel: sizes are written as `uint32`, so their value is taken modulo 2 ^ 32. `ConnReadLoop`
-- runs on fuel; a round for each message and one for the end are enough. The decimal form of a number
-- runs on fuel, the number itself, which is enough, since a division by ten makes it smaller. The width of
-- a hexadecimal number is searched on fuel, the number itself, which is less than 16 to its power. All other
-- loops are structural.
--
-- Go's `int` is an integer without bounds, since the code computes with none that it does not read from
-- a document or compare; where a command is read, a number outside of 64 bits is an error. The
-- manager holds the numbers of a document as float64; with which digits it writes one is a parameter, `print`
-- of `Json`, and what is proved of commands on their way is about numbers up to 2 ^ 53, which float64 holds and
-- which are written as they are. A command or an answer of more than `max_size`, 0x10000 bytes, is refused by its
-- reader. A map is an association list; the order in which Go iterates over a map is an
-- argument.
--
-- Not modelled: what only calls the operating system (the streams and the environment of a
-- process, time itself), which lines the code logs, and the generated gRPC code. What a file, a device, a
-- process and `net` answer is an argument, and so is the text that `encoding/json` makes of a value or takes
-- apart. The handlers of Server take what `getAppCmd` returns as an argument.
mod Base
pub mod Wire
pub mod Tasks
pub mod Settings
pub mod Server
pub mod Keeper
pub mod Screen
pub mod Document
pub mod Route
pub mod Gather
pub mod Node
pub mod Client
pub mod Flags
pub mod Renderer
pub mod Startup
pub mod Delivery
pub mod Log
pub mod Connection
pub mod Sender
pub mod Signals
