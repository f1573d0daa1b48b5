-- ===== src/Lib.antt =====
-- runj: an OCI runtime for FreeBSD jails, and the containerd shim that drives it.
--
-- The program has these parts. `runj` (cmd/runj) is a command: create, start, state, kill, delete
-- and extension exec work on one container, whose state is a file (state/) and whose configuration
-- is a bundle, merged with an extension (oci/, runtimespec/). It makes jails with jail_set(2)
-- (jail/params.go, jail/syscall.go) and mounts their file systems (jail/mount.go).
-- `runj-entrypoint` (cmd/runj-entrypoint) is started by create, waits at a fifo for start, enters the
-- jail and becomes the container's process.
-- `containerd-shim-runj-v1` (containerd/) serves containerd's task API for one container: it runs
-- the `runj` command, keeps the processes that it started, and learns of their exits from a reaper.
--
-- Files and the code that they model:
--   Prelude: shared tests, lists and results. Text, FilePath: what the program uses of Go's strings,
--     strconv and path/filepath. Status: the statuses of state/state.go.
--   Jail/Iovec: jail/syscall.go's builders of buffers. Jail/Params: CreateParams.iovec of
--     jail/params.go, a block for each parameter, composed in its order; netip.ParseAddr is a
--     parameter of each. Jail/Mount: Mount and Unmount of jail/mount.go over a log of
--     changes; Jail/Mount/Done: that log on every result, Active: the mount points that are in place.
--   Oci: the parts of config.json and runj.ext.json that are read. Oci/Merge: merge of oci/config.go.
--   Jail/Ps: IsRunning of jail/ps.go. Jail/Find: find of jail/syscall.go.
--   Jail/Handle: jail/jail.go over the system calls of jail/syscall.go. Runj/Version: version.go.
--   Entrypoint: cmd/runj-entrypoint/main.go. Entrypoint/Handshake: it and `runj start` at the
--     fifo, under a context that is never done, as cobra's Execute gives it.
--   Runj/Store: State.Output, Load and Save of state/, and the files of one container. Runj/Commands:
--     the bodies of cmd/runj/start.go, kill.go, state.go and delete.go, with LoadConfig of
--     oci/config.go, AwaitFifoOpen of jail/entrypoint.go, Run of hook/hook.go and Remove of state/.
--     Runj/Signal: parseSignal of kill.go.
--   Runj/Create: cmd/runj/create.go, with Create and initialize of state/, StoreConfig of
--     oci/config.go and CopyFile of internal/util. Runj/Create/Stages: its stages, each followed by
--     the later ones under its deferred function, with Create of jail/jail.go, MoveVNetInterfaces of
--     jail/vnet.go and SetupEntrypoint of jail/entrypoint.go. Trace, Unwind and Failure: a create
--     that fails; Kept, Prepared and Success: one that succeeds.
--   Runj/Exec: cmd/runj/ext_exec.go, with ExecEntrypoint of jail/entrypoint.go.
--   Runj/Lifecycle: the commands on one container as steps, and the life of a container.
--   Containerd/Process, Containerd/Io: containerd/managed_process.go and pio.go.
--   Containerd/Bundle: containerd/bundle.go. Containerd/Command: containerd/exec.go.
--   Containerd/Shim: the fields of `service` in containerd/shim.go, with the events that it has
--     published and what it has done outside, and the monad of its methods: a method that fails
--     keeps what it has done; a panic is the error `panicked`. Containerd/Aux: findProcess and the
--     map of auxiliary processes; those taken out of it, to which a pending Wait still points, are the
--     field `released`. Containerd/Create, Start, Task and Exits: Create and Exec; Start;
--     Delete, State, Kill, ResizePty, Connect and Wait; checkProcesses and processExits.
--     Containerd/Service: mapTopic, forward and the callbacks of Shutdown. Containerd/Manager: Start and
--     Stop of containerd/manager.go. Containerd/Create/Unwind: what a Create does
--     under its deferred functions, by Containerd/Create/Ran.
--   Containerd/Invariant, Safety: the invariant of a service and that each method keeps it.
--   Containerd/Calls: the service as a state machine of calls and exits. Shutdown, after which the
--     channel of events is closed, is a call with no call after it.
--   Containerd/Race: startAux and the reaper's checkProcesses on one process, as interleaved steps.
--   Demo: cmd/runj/demo.go and demo/. Demo/Tar, Demo/Image: makeTar and MakeImage of demo/rootfs.go;
--     Demo/Command: the commands, with DownloadRootfs; Demo/Version: demo/version.go. Packed,
--     Described, Made and Delivered: an image that is made; Kept and Requested: every outcome.
--   Examples: concrete runs.
--
-- What is outside the repository is a field of a record that a definition takes: Host for the shim
-- (the answers of `runj`, of the console and fifo packages, of the file system), Fs for mounts,
-- Answers, Disk and Surroundings for the commands, Site for the demo. No hypothesis restricts them, but
-- where a theorem says that unmounting works; that filepath.Walk reports the files of a directory;
-- for a create that fails, that the files of its state can be removed and that the failure is none of
-- the kinds after which the code undoes nothing (Runj/Create/Trace: Passing); for a create that
-- succeeds and a start after it, that the last write of state.json has been renamed into place. A
-- call may meet other answers than the one before it.
--
-- Recursion is on lists but in Text/Decimal: the digits of n are written with the fuel n + 1, of
-- which each digit takes one, and each takes n to a tenth of it. Process ids and signals are numbers, and where Go
-- converts to uint32 or uint16 the remainder is written out. A Go map is an association list whose
-- keys are read from the front; but for Containerd/Race, a method of the shim does not interleave with
-- another one.
--
-- Not modelled: the registration of the shim as a plugin and as a reaper (containerd/plugin.go,
-- reaper.go), which call containerd's packages and the kernel; cmd/runj-entrypoint/cmsg.go, which is
-- copied from runc; and the registration of the commands with their flags in cmd/runj. JSON is read
-- and written by the standard library, whose parsers are parameters.
pub mod Prelude
pub mod Text
pub mod Jail
pub mod Oci
pub mod FilePath
pub mod Status
pub mod Containerd
pub mod Runj
pub mod Entrypoint
pub mod Demo
pub mod Examples
