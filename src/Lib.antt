-- ===== src/Lib.antt =====
-- A model of sandman, a data fabric that keeps versioned repositories of files, runs pipelines
-- over them and places their jobs on execution hosts. Go functions are translated into functions
-- on explicit states, and Go strings and file contents into lists of bytes.
--
-- The program's parts. The store (internal/store) keeps repositories with their commits, branches
-- and tags on disk; the daemon (the main package) reacts to finished commits by triggering
-- pipelines and runs their jobs on hosts that joined its registry. The size triggers measure
-- commits through the store's resolved views, and the registry of hosts is independent of both.
--
-- - Store/Data holds the state, internal/store/store.go on disk: a repository is its directory
--   with commits/, refs/ and the file default, `objects` is repos/.objects, `tags` the directory
--   of tags. `Env` stands for what is not in the repository: crypto/sha256, the folding of Go's
--   unicode tables, and whether the file system folds case.
-- - Store/Names: ValidName, validPath, validBranchName, IsCommitID, and the collision checks of
--   internal/store/casefs.go.
-- - Store/Records: LoadCommit with the conversion of legacy records, SaveCommit, WriteBlob,
--   ReadBlob, LoadCommitByID. Its children hold what a load returns after a save.
-- - Store/View: ViewEntry, ResolveView, pathConflict, ChainFromHead; Store/Files reads through
--   them (ListFiles, GetFile, MaterializeView, ViewDatums).
-- - Store/Commits, with Finish and Copy: StartCommit, PutFile, OverwriteFile, DeleteFile,
--   TombstoneRemoved, AddFilesFromDir, Reparent, FinishCommit, SetHead, CopyFile; Store/Repos and
--   Store/Tags the operations of these names.
-- - Store/Walk: WalkFiles over a file system whose answers are a parameter, with the paths that it
--   reads; the files that it visits and the error that ended it are the arguments of
--   AddFilesFromDir in the model.
-- - Store/Steps: the operations of the store as one data type, a step and a run. SaveCommit and
--   SetHead, which the daemon also calls by themselves (recordProvenance, deleteCommit) and which
--   may rewrite a finished commit, are not among the steps. The arguments are those of the Go
--   methods; the id of a new commit (newCommitID), the time (Now) and what a walk of a directory
--   visits are arguments too.
-- - Store/Invariant: the consistency of a store, and what follows for reads. Store/RoundTrip,
--   Store/Appends, Store/Finishing and Store/Conflicts relate operations to later reads.
-- - Hosts: hosts.go, with the time of a heartbeat as the parameter `Clock`. Each method runs under
--   the registry's lock and is one step.
-- - Trigger: trigger.go, commitDelta, the arithmetic of fireTrigger under its lock, and
--   clearTriggerLedgers.
-- - Protocol: protocol.go, lines, frames, events and the dispatch of a connection. A reader is the
--   list of the bytes that it still delivers.
-- - Peers: registry.go, the peers of the fleet (loadStatic, prune, list, mergeSync), with white
--   space that of ASCII.
-- - Datums: datum_engine.go, the units of work of a job. Glob is globMatches over filepath.Match,
--   where one byte counts as one character; Enumerate is enumerateDatums, Cross is crossDatums,
--   joinProduct and datumHash, Chunks is mergeSides, sideSize and chunkSideDatums, where a number
--   or a size that is not positive is 0, and Merge is mergeOutputs with mergeFile, into an output
--   directory that is empty at first.
-- - Jobs/Gate: jobGate of jobs.go, the queue of a pipeline's jobs. Nodes are numbers, a pointer is
--   an optional number, and each section under the gate's lock is one function; Queue is the queue
--   that the gate stands for, Slot the jobs at a gate as a relation of steps, with the cancels
--   left open.
-- - Jobs/Deletion: deleteCommit, resolveCommitRef and the listings of commit records, on a state
--   of the store, the jobs and their logs. Jobs in flight are taken to have settled.
-- - Jobs/Pairing: newJobRec, hasRunningJobWithInputs, hasJobWithExactInputs and jobByOutput on the
--   list of jobs. Siblings holds what the check finds.
-- - Transactions/Topo: topoOrder of transaction.go. The keys of a Go map are a list in which each
--   stands once.
-- - Pipelines/Inputs: an input as a tree (client/client.go) and the walk over its nodes
--   (walkInputs of git.go). Pipelines/Derive: what the derivations of trigger.go, cron.go and
--   git.go write into the nodes, and the lists of side repositories.
-- - Pipelines/Declared: the declaration of a pipeline (client/client.go). Spelling, Validate,
--   Customization and Spec: the checks of pipeline.go, git.go, spout.go and customization.go on a
--   declared pipeline. url.Parse and the decoding of JSON are parameters; a character of several
--   bytes is read as UTF-8 where the code ranges over a string. Consumes: pipelineConsumes and
--   inputConsumesRepo of jobs.go.
-- - Pipelines/Records and Pipelines/Applying: the records of pipelines with their archive, and
--   applyCreate and applyUpdate of pipeline.go on them. A record file that does not decode is kept
--   as such.
-- - Transactions/Check and Transactions/Finish: staging, finishTransaction and rollbackTx of
--   transaction.go on those records.
-- - Samples: the data of the runs, and the theorems applied to them. Prelude: lists, byte strings,
--   decimal numbers, ordered maps, sorting and results.
--
-- Maps. A Go map and a directory are association lists in the order of their keys; Go leaves the
-- order of a range over a map open, and this is one that it may take.
--
-- Errors are values, one constructor for each message, and an operation returns the store that it
-- leaves also beside an error.
--
-- Bounds and fuel. Sizes and counts are natural numbers: Go holds them in 64 bits, which the bytes
-- of a file never exceed. The walk of ResolveView and of ChainFromHead runs on fuel, the number of
-- the repository's records and one more, which is enough for an ancestry that visits each record
-- once; a loop of parents, in which Go would not return, is cut off. The loop of topoOrder runs as
-- many rounds as there are names, each of which places another one. The search of deleteCommit has
-- a round for each job and one more. WalkFiles enters 65 levels, the depths 0 to 64 of the code,
-- and reports an error below them. The loop of fireTrigger runs on the ledger's value as fuel,
-- each round taking at least one byte.
--
-- Not modelled. A write to disk succeeds, and the rename of a temporary file is one step with its
-- write. A directory is looked up by exact names; on a file system that folds case the collision
-- checks run, and the lookup itself stays exact. The path of a branch below refs/ is cleaned as
-- filepath.Join does; a branch that leads out of refs/ by "..", which FinishCommit does not reject
-- and with which the code writes a file elsewhere, is taken to fail. Records are stored as they
-- are: encoding/json, which replaces bytes of a string that are no UTF-8, changes nothing in a
-- record whose names and paths are UTF-8. A name that the operating system refuses for its length
-- or a zero byte is taken to be written. Archives (TarDir, BackupTar), the broadcast of a finished
-- commit, and locks held across several methods are left out. The running of jobs and datums, the
-- coordinator of the head jobs of a transaction, the scheduling, stopping and starting of
-- pipelines, services and spouts, the ticks of cron inputs, the receivers of git pushes, and the
-- HTTP API are not modelled.
pub mod Prelude
pub mod Store
pub mod Hosts
pub mod Trigger
pub mod Protocol
pub mod Peers
pub mod Datums
pub mod Jobs
pub mod Transactions
pub mod Pipelines
pub mod Samples
