-- ===== src/Lib.antt =====
-- A model of ssh-forward, a service that keeps TCP forwards alive over OpenSSH, and theorems about
-- it. One manager per host observes the TCP listeners of the host, decides which forwards are wanted
-- and runs one worker for each of these.
--
-- Parts, with the files of `cli/internal/core` that they are about:
--   * Core/Types: the data of `status.go` and the keys of `desired.go`. A string is the list of its
--     bytes, and a port is a number; `ErrorDiagnostic` is `error_diagnostic`.
--   * Core/Desired: `buildDesiredForwards` of `desired.go`, one function per loop. A Go map is an
--     association list, and the iteration over a map goes through this list in its order.
--   * Core/Normalize, Core/Names, Core/Intent: the normalisations of `desired.go`: of the port rules
--     (`normalizeForwards`), of app names and of working-directory rules (`normalizeRuleNames`), and
--     of a whole intent (`normalizeIntent`); and `ValidHostName` of `status.go`. An error is a value
--     without its text.
--   * Core/Reconcile: `planReconciliation` of `reconcile.go`, which compares the wanted forwards with
--     snapshots of the workers and says which to keep, stop, start, or let wait for a port.
--   * Core/Manager: the state of `manager.go` and each of its operations, those of
--     `manager_observe.go`, `manager_status.go` and `worker.go` included. A worker has an identity, a
--     number, where the source compares pointers. Every operation holds the mutex while it uses the
--     state, so it is a step, and the goroutines of the observer, of the workers and of the callers
--     are sequences of steps in any order (`Event` in Core/Manager/Runs).
--   * Core/Worker: `forwardOnce` of `worker.go`, which tries the preferred local port and then those
--     above it.
--   * Core/Examples: the theorems at concrete inputs, and runs of the functions.
--   * App/Targets, App/Processes, App/TargetId: `cli/internal/app/host_target.go`: which targets and
--     options are valid (`validateTarget`, `keepValidArguments`), what the arguments of an `ssh` process
--     say (`parseSSHProcess`), and the identifier of a target (`targetID`).
--   * App/Equivalent: `collapseSameHosts` and `preferHost` of
--     `cli/internal/app/host_equivalent.go`, which keep one target per destination. What the resolver
--     and `ConfiguredHosts` answer is an argument.
--   * App/Registry: the loops of `mergeDiscovered` and the change of `EditHost` of
--     `cli/internal/app/host_registry.go`, without their files.
--   * App/HostTargets: `hostTargets` of the same file, which says which hosts there are. The files that
--     do not exist, the answers of the resolver and those of `ConfiguredHosts` are arguments.
--   * App/Pool: `cli/internal/app/manager_pool.go`: the state of `managerPool` and its operations, over a
--     record of what it calls of a manager (`ManagerOps`), which App/Pool/Managers fills with the
--     managers of the core. `reload` holds the mutex to its end, so it is one step. It goes through the
--     old managers in the order of the association list.
--   * App/Discovery: `discoverProcesses` of `cli/internal/app/host_discovery.go`, which excludes the
--     program's own processes and their descendants and reads the targets of the others.
--   * App/Config: the rules of one scope of the configuration (`cli/internal/app/config.go`), their
--     normalisation (`config_normalize.go` there) and `editRule` (`config_forwards.go` there), which
--     works on indices.
--   * App/Edits: the configuration as a whole: `normalizeConfig` of `config_normalize.go`, and the edits of
--     `config_forwards.go` and `config_rules.go` there, as functions from the configuration that
--     `editConfig` loads to the file that it writes. Locks, paths and JSON are left out.
--   * App/Wire: the configuration, its file form, `wire` and `configuration` of
--     `cli/internal/app/config.go`, which translate one into the other, and `effectiveIntent` there,
--     the rules that hold for a host. Go's nil slices and maps are the empty ones.
--   * App/Examples: as Core/Examples.
--   * Openssh/Snapshot, Openssh/Scanner: `cli/internal/openssh/scanner.go`: what one observation of a
--     host says of its sockets, the rounds that learn which ports are SSH servers', and the loop over
--     the lines that the remote script prints.
--   * Openssh/Control: how `runControlCommand` of `cli/internal/openssh/control.go` reads the end of a
--     command to the master, and `classifyError` and the bounded buffer of `process.go` there.
--   * Openssh/Forward: `Forward` of `cli/internal/openssh/forward.go` with `ensureMaster` and `Close` of
--     `master.go`, `cancelForward` of `control.go` and the verdict of `remote_bind.go` there. The state
--     that the mutex guards is given for each time that the mutex is taken (`Moment`), so other
--     goroutines may do anything in between; a master is a number, where the source compares
--     pointers; the commands, the stops of a master and the call of `ready` are a list of actions.
--   * Openssh/Examples: as Core/Examples.
--   * View/Diagnostics, View/Format, View/Sections, View/Table, View/Render: the status that people read:
--     `cli/internal/diagnostics/diagnostics.go`, and `format.go`, `statusview.go` and `table.go` of
--     `cli/internal/statusview`, up to the write. A width of the terminal that is not positive is 0.
--   * View/Examples: as Core/Examples.
--   * Prelude: tests, lists, association lists, results, sorting, and the text functions of Go's
--     standard library that the code uses, over numbers and lists of bytes.
--
-- How the parts interact: an intent is normalised before the manager takes it; a reconciliation
-- builds the wanted forwards from the intent and the listeners, plans, and applies the plan; a worker
-- reports its state to the manager under its key and its identity, and a report of a worker that the
-- manager has stopped or replaced is dropped. The scanner emits the listeners that the manager takes,
-- and the error of `Forward` is what `forwardOnce` reads as a conflict or as the end of a round. The
-- pool gives each manager the effective intent of its host, with the local ports that any host
-- publishes reserved.
--
-- Bounds: the loop of `forwardOnce` is recursion on the number of rounds that are left, at most 21 of
-- them, one for each offset from 0 to 20. The loop over the process tree is recursion on one pass more
-- than there are processes: every pass but the last excludes one of these. The loop of `targetID` is
-- recursion on one pass more than the name has bytes, since every pass shortens it. That of
-- `shortenTail` is recursion on the columns of the text: after so many passes nothing is left of it.
-- Every other loop
-- is recursion on the list that it goes through; for the waits of the adapter and for the loop of the
-- scanner this is the list of what they receive. The sum of a port and an offset wraps at 2 ^ 16 as in
-- the source.
--
-- Parameters: the glob package `github.com/bmatcuk/doublestar/v4` is a record of its two functions,
-- with nothing assumed of them; what the backend, the context and the manager answer to a worker
-- during a round is a record of functions of the offset; the decoders of JSON and the failures of the
-- streams are parameters of the scanner; the sum that SHA-256 makes of a target's JSON is one of
-- `targetID`, and the reader of arguments one of `discoverProcesses`; what the file system and the
-- resolver answer to `reload` is its input. What a process, a timer or a context answers to the
-- adapter is a value of its input. Of none of these anything is assumed. The layout of the tables has
-- a record of `StringWidth` and `TruncateLeft` of `github.com/charmbracelet/x/ansi`; its theorems
-- assume that nothing is left of a text that is cut behind its end, and that the ellipsis takes one
-- column.
--
-- Not modelled: the retry loops of `runForward` and `observe` and their timer, as far as they only
-- order the steps above; the wait for the goroutines in `Close`; under `cli/internal/openssh` the
-- argument lists of the commands, the remote script, and how processes are started and stopped; under
-- `cli/internal/app` the files and locks of the configuration and of the host registry, the walk over
-- the SSH config, the runs of `ssh -G`, the service, its socket and the doctor; the command line.
pub mod Prelude
pub mod Core
pub mod App
pub mod Openssh
pub mod View
