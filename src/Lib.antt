-- ===== src/Lib.antt =====
-- The workload agent runs on a host of virtual machines. libvirt's hook asks it over RPC to
-- prepare, start and stop a VM: `Prepare` decrypts the VM's image into a dm-crypt volume and makes
-- a volume for the VM, `Start` sends a signed trust report to the Workload Service and counts the
-- VM in a map of images, and `Stop` closes the volumes that nothing uses any more. A gRPC key
-- provider unwraps keys for containers.
--
-- Files. The code's functions keep their names, in snake case.
--   Prelude           names passed on; Go's map, int and package strings
--   Consts            consts/constants.go
--   Types             the data of libvirt/, util/, config/ and of the foreign answers
--   World             every call that leaves the repository (Calls), Go bodies (Go), and the rules
--                     for proofs on them: kept properties (Keeps), mutexes (Locks), what a
--                     returned success shows (Confirms), and functions that always return
--                     (Returns)
--   Association       util/util.go and wlavm/image_VM_association.go: the map of images; its
--                     entries, its locks, its file (Persistence), its specification (Ledger), and
--                     the threads that change and save it (Interleaved)
--   Libvirt           libvirt/parse_domain_xml.go
--   Tpm               util/util.go: the TPM connection and UnwrapKey
--   Clients           clients/workload_service_client.go, and clients/hvs_client.go (Hvs)
--   Filewatch         filewatch/filewatch.go, and the handler that wlavm/prepare.go registers
--   Config            config/config.go: the readers of key files, and the settings of
--                     the setup tasks with their file (Setup), and the log files (Log)
--   Wlavm             wlavm/prepare.go (QemuImg, Volume, Image, Prepare), wlavm/start.go (Start)
--                     and wlavm/stop.go (Stop)
--   Flavor            flavor/flavor.go and flavor/key_retrieval.go
--   Keyprovider       keyprovider-grpc/server.go
--   Rpc               rpc/server.go; its tasks of package proc (Tasks) and the return of Stop
--                     (Returns)
--   Keys              common/key_creation.go and common/key_registration.go; the secrets and files
--                     of new keys, and where a registration panics
--   Setup             the tasks of setup/
--   Main              main.go: the usage, the setup runner's tasks (Tasks), the hook's commands
--                     (Hook), the removal of the agent (Removal), and the daemon and the gRPC
--                     service with their goroutines (Service)
--   Locks             the mutexes of the RPC methods
--   Footprint         which files and volumes an operation touches
--   Tests             a small outside world, and runs in it
--
-- How a Go function is written. It maps a `State` to an `Outcome` (a value, a panic, or an exit of
-- the process) and the state afterwards. The state holds the package-level variables of the agent
-- and the list of all calls that left the repository, the latest first. `Env` answers a call from
-- the calls before it, so a theorem over any `Env` holds for any behaviour of the operating
-- system, the network, the TPM and the third-party packages. `errors.Wrap`, `strconv.Atoi` and
-- `strings.ToLower` are
-- fields of `Env` as well. An `error` is the text of its message, or none for nil. A value of a
-- foreign package that the agent only hands on is a number that stands for it.
--
-- Deferred calls run after an early return and after a panic, and not after an exit. A deferred
-- method call on a nil interface panics where it is deferred, as in Go. A variable that the code
-- declares anew in an inner block is a new variable of the model.
--
-- Loops are structural recursion on the list of lines or events, so no fuel is used. Go's int is
-- 64 bits wide and wraps round; the ledger's theorems ask for room below its largest value.
--
-- `main` takes the program's arguments and what the linker sets. The setup runner and the task that
-- downloads the CA certificate are the common library's and come as a record. The daemon's
-- goroutines are functions of their own, and `runservice` records that it starts them. The loops of
-- the goroutines have no end in the code; the model's end where the notices or connections that it
-- is given do, and there the code waits for the next.
--
-- Each function runs by itself. Association/Interleaved has the steps of any number of threads that
-- change the map, save it and load it. A thread takes the mutex, reads the image's entry, and writes
-- the map and leaves the mutex, in three steps; then it marshals the map, and under the mutex
-- truncates the file and writes it, in two, of which either may fail. A thread that loads the file
-- writes the map with no mutex, any number of times; what the decoder makes of the map is left open.
-- What two writers without a lock would leave in the file is a text of its own, `mixed`.
--
-- Not modelled: log entries and messages on the standard error, which change nothing that the code
-- reads; the progress messages of the setup tasks; the scripts under dist/ and libvirt/qemu. Other
-- interleavings are not modelled, as that of the RPC methods with the watcher's loop, only the
-- order of each method's locks; nor is Go's data race on a map that is marshalled while another
-- thread writes it. The model's map holds no nil pointer, which a null in the YAML file would put
-- into the code's map, nor are its entries shared: the write through a pointer that a concurrent
-- load has replaced is a write of the map.
pub mod Prelude
pub mod Consts
pub mod Types
pub mod World
pub mod Association
pub mod Libvirt
pub mod Tpm
pub mod Clients
pub mod Filewatch
pub mod Config
pub mod Wlavm
pub mod Flavor
pub mod Keyprovider
pub mod Rpc
pub mod Keys
pub mod Setup
pub mod Main
pub mod Locks
pub mod Footprint
mod Tests
