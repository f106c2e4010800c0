-- ===== src/Lib.antt =====
-- fctools: a library that runs Firecracker microVMs.
--
-- The parts of the program, from the bottom up, and the files that model them. Paths of the program
-- are from the repository's root.
--   src/shell_spawner.rs starts a command in a shell, as the same user or through `su` or `sudo`:
--     ShellSpawner, with the trait as a record that the other parts take as an argument.
--   src/executor/arguments.rs builds the command lines of `firecracker` and `jailer`: Arguments
--     (`VmmArguments::join` is `join_vmm` over the map `vmm_args`, `JailerArguments::join` is
--     `join_jailer` over `jailer_args`), Arguments/Build for the builder methods. Arguments/Reading
--     reads a command line back.
--   src/executor/command_modifier.rs changes a command line before it runs: CommandModifier.
--   src/executor/mod.rs is the interface `VmmExecutor` with its helpers: Executor. Its
--     implementations are src/executor/unrestricted.rs in Executor/Unrestricted and
--     src/executor/jailed.rs in Executor/Jailed, with the renamers in Executor/Jailed/Renamers.
--   src/process.rs is the process of the VMM, driven by an executor and a shell spawner: Process for
--     its state and its life cycle, Process/Socket for the API socket. Process/Steps has the runs of
--     any calls on a new process, Process/Refusals which calls are refused in which state.
--   src/vm/models.rs is the data of the devices: Models, with the builder methods and the types of
--     single requests and responses in the files below it. src/vm/configuration.rs is the configuration
--     of a virtual machine: Vm/Configuration. src/vm/snapshot.rs has the files of a snapshot:
--     Vm/Snapshot.
--   src/vm/mod.rs is the virtual machine around the process. Vm/Machine has its state and the checks
--     of it. `Vm::prepare_arced` is in Vm/Prepare; the resources that it hands to the process and the
--     configuration with the paths that come back are in Vm/Mappings. Vm/Start is `Vm::start`; its wait
--     for the socket has a parameter that says how often the socket is looked for before the timer is
--     up. Vm/Shutdown is `Vm::shutdown` with its loop over the methods; a parameter says whether its
--     timer is up before the child has exited. Vm/Cleanup is `Vm::cleanup`. Vm/Sample is a concrete
--     machine.
--   src/vm/api.rs is the requests to a running machine: Vm/Api for those that initialise, pause, resume
--     and snapshot it, Vm/Api/Calls for the others. What serde_json makes of a body is the parameter
--     `Json`, which also has the values of the types that a caller of the MMDS requests chooses.
--   Vm/Lifecycle is the abstract machine that a virtual machine is for its client: it is prepared, runs,
--     is paused or has ended, and each kind of call allows some steps between these. Vm/Lifecycle/Runs
--     has all calls of src/vm/mod.rs and src/vm/api.rs as one type, Vm/Lifecycle/Traces their sequences,
--     and Vm/Lifecycle/Reports what `Vm::state` tells of it. Vm/Motion carries a relation on states
--     through the requests, and Process/Drift and Process/Started say how the calls of the process move
--     its state, Process/Fixed and Vm/Api/Keeping what they leave as it is. Process/Killing and Vm/Shutdown/Killing follow a child that is killed to its end.
--   src/executor/installation.rs checks the installed binaries: Executor/Installation.
--   src/ext/link_local.rs divides 169.254.0.0/16 into subnets: LinkLocal. src/ext/fcnet.rs runs fcnet
--     through a shell spawner: Fcnet. src/ext/snapshot_editor.rs runs the snapshot editor:
--     SnapshotEditor. src/ext/metrics.rs gathers the metrics: Metrics for the task, Metrics/Entry for
--     an entry with its parts in Metrics/Requests and Metrics/Devices. src/ext/http_vsock.rs and
--     src/ext/grpc_vsock.rs connect to programs in the guest: Vsock.
--
-- How the code is translated. A fallible function returns an `Outcome`: `Ok`, `Err` or a panic. A
-- function that also changes a state is an `Action`, from a state to an outcome and a state; what was
-- changed before an error stays changed. The operating system and the crates are the record `Host`
-- (tokio, libc, hyper, http), whose calls may change the world and answer anything, and `Cidr`,
-- `Addresses`, `Gathering` and `Clients` for what single extensions use; the theorems hold for all of
-- them unless they say otherwise. Simulation is a small host for the runs at
-- concrete inputs. Text is a list of code points and a path its text, compared by its components as
-- `PathBuf` is: Text, FilePath. A `HashMap` is a list of pairs; where its iteration order is visible,
-- the order is a parameter.
--
-- An `.await` is a call: the code of one function runs as one sequence, and the tasks of a `JoinSet`
-- are handed to the host, which runs them when it likes. Loops are structural recursion on the list
-- they go through; the loop over joined tasks has one round for each task that was spawned, and ends
-- earlier when the host says that no task is left. The 16-bit and 32-bit numbers of link_local.rs keep
-- their wrap-around.
--
-- The task of src/ext/metrics.rs never ends by itself: the model has its first turns, for any number of
-- them.
--
-- Not modelled: how tokio runs the task that `spawn_metrics_task` hands to it and the connection that
-- `vsock_connect_over_http` does, and the Display texts of errors.
pub mod Base
pub mod Text
pub mod FilePath
pub mod Host
pub mod ShellSpawner
pub mod Arguments
pub mod CommandModifier
pub mod Executor
pub mod LinkLocal
pub mod Process
pub mod Simulation
pub mod SnapshotEditor
pub mod Fcnet
pub mod Metrics
pub mod Models
pub mod Vm
pub mod Vsock
