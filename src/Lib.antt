-- ===== src/Lib.antt =====
-- Fern: environments for coding agents, and what makes them safe to undo.
--
-- A fern daemon keeps environments: a box (a sandbox with a repository and its services), its disk
-- with snapshots, and a second box for Claude itself. Each environment has one actor, a goroutine
-- that makes every change to it one at a time: it wakes the box for a command, counts the commands
-- that run, puts the box to sleep when it has been idle, and takes the box down before its disk is
-- swapped or deleted. What an actor asks of the store, the driver, other actors and the clock is
-- outside of it. In each box fern-init runs background jobs, and on the node a watcher decodes the
-- kernel's reports of the files that the boxes write, to pass them on. A Claude that is idle is
-- stopped and started again behind the back of the program that talks to it. What an environment
-- starts from is a golden snapshot, under a key of the files that it was built from; backups leave
-- the node encrypted.
--
-- Files and what they model, with paths from the repository's root:
--
--   Prelude, Prelude/Tests, Prelude/Lists, Text, Decimal: shared names and lemmas, and what the
--     program uses of Go's strings and strconv. A string is a list of bytes.
--   Ids: the patterns and names of internal/store/store.go (envIDPattern, snapIDPattern,
--     pathPartPattern, AgentBox, IsAgentBox, EnvOfBox, ForkID, ForkOf) and IsBuilder of
--     internal/setup/setup.go. Ids/Boxes and Ids/Forks prove what the names promise.
--   Actor/State: the fields of `actor` in internal/actor/actor.go, the environment's row, the box
--     as the driver lists it, the effects of a handler, and a `Turn`: everything the outside
--     answers while one message is handled, the store's rows and errors, the driver's boxes, errors
--     and address, and two readings of the clock, `now` at the start and `done` after the driver's
--     call. A time is a number of the clock's smallest unit; 0 is Go's zero time. A handler is a
--     function from a Turn and an actor to an actor, the list of its effects in order, and its
--     result or error.
--   Actor/Idle: endLease, later, deadline, armIdle, sleepIfIdle of internal/actor/idle.go and
--     stopBox of actor.go.
--   Actor/Wake: wake, recent of actor.go and watch of watch.go. Actor/Exec: exec, endExec of
--     exec.go and touch of watch.go. Actor/Changes: boxOf, stopAgent, Sleep, Restore, Snapshot,
--     DeleteSnapshot, Wake, Delete, and the numbers that Fork picks, of changes.go, and prewake.
--   Actor/Loop: the messages of an actor, run and handle: before each message the idle timer is
--     armed, and an actor whose box is neither awake nor in use ends when it has no more messages.
--     A cancel function is the number of its command; the order in which Go's map of commands is
--     ranged over is the order of the model's list.
--   Watch/Slices, Watch/Event: decode and info of internal/watch/event.go, with the panic of an
--     index out of range as a value. Numbers are little-endian, as on amd64 and arm64.
--   Jobs: Jobs of internal/boxexec/jobs.go: what a box keeps of its background commands, the bounds
--     on it, and the requests of the daemon. The process is outside: its output arrives as writes,
--     its end as an event.
--   Sets: Go's maps with strings for keys.
--   Hibernate/Stream: the conversation between a Claude and the SDK of internal/hibernate/stream.go
--     (In, Out, idleSince, restart, resumeArgs, isStreamingClaude, hasFlag). How a line of JSON
--     reads as a message is an argument. Stream/Replay, Stream/Answers and Stream/Args are about
--     what is replayed, which answers are kept back, and which arguments a restart has.
--   Hibernate/Run: run of internal/hibernate/hibernate.go as its select sees it: lines, the end of
--     stdin, signals, exits of Claude, ticks and Claude's lines are events with a time in
--     nanoseconds, and what is done to Claude and the SDK are effects. Run/Lines and Run/Delivery
--     follow the SDK's lines through it, Run/Order the Claudes. Hibernate/Output: lineWriter.
--   Backup/Chunks, Backup/Crypt: chunks, next, full, and the readers of Encrypt and Decrypt in
--     internal/backup/crypt.go. The cipher and the random prefix are arguments. Crypt/Reading says
--     what reading to the end gives, Sealing and Opening what the two readers give, RoundTrip and
--     Authentic, with Pieces, how they fit, Nonces what a chunk's nonce tells of it.
--   Backup/Bucket, Backup/Send, Backup/Once: env and Once of internal/backup/backup.go, with send,
--     state, sweep and save, over the environments' snapshots and the objects of a bucket. A call
--     goes, fails, or is the last one before the daemon dies, with or without what it was to do
--     being done, and before it others write, make and delete environments and snapshots: a Fate says
--     which. Calls for which there is none go. A clock reading is a number that no earlier reading
--     gave; files are a number too. The state's archive is one call. The size of a
--     send and the time of a manifest are left out. Once/Sound, Changes, Ends, Streams, Node,
--     Sending, Workspace, Manifests, Sweep and Whole show what holds wherever these calls end.
--   Backup/Restore: Restore and receive of internal/backup/state.go, when its own
--     calls (directories, downloads, the state's archive) succeed. filepath.IsLocal is an argument.
--     Restore/Sound and Restore/History say what it gives after any history of a node.
--   Golden: buildGolden of internal/actor/golden.go, with BuildSource and StripSource of
--     internal/store/golden.go and Prune of internal/store/retention.go, over one builder: its
--     workspace, by what was done to it, its box and its snapshots. Calls end as those of a backup
--     do, and a box that runs may write before any of them. The key of a workspace is an argument.
--     Golden/Calls and Golden/Sound follow a build from call to call, Golden/Builds takes any
--     number of them. There a step of StripSource only says how far it came; Golden/Strip has the
--     files, the list that listSource writes and StripSource's loop over it, with
--     filepath.IsLocal as an argument, and Golden/Strip/Left says what it leaves.
--   OnDemand: listenAddr, and serve, waitReady, wait, relay and forget of cmd/fern-init/ondemand.go, as
--     events in the order in which fern-init's goroutines take their turns; whose a connection is and
--     what the service answers are arguments of an event. OnDemand/Connections says what always holds.
--   Services: parseServices and the supervisor's loop of cmd/fern-init/services.go. What the YAML
--     holds, and how long runs last, are arguments. Services/Backoff is about the pauses.
--   Setup/Builder: ID, SourceID and BuilderOf of internal/setup/setup.go, with the names they make
--     in Builder/Names. Setup/Words: what the package uses of Go's strings, slices and regular
--     expressions. Setup/Files: readFile, fileSum, hasToolFiles. Setup/Compose: composePostgres,
--     composeEnv and postgresRun of internal/setup/guess.go. Setup/Guess, with the tables of
--     Setup/Frameworks: MakeGuess, pickPackageManager and nodeVersion. Setup/Key: Key,
--     goldenInputs, ToolsKey, ServicesFile and PreviewPort. The checkout is a function from a path to what opening it finds; YAML, JSON,
--     SHA-256, filepath and the printing of a text as JSON or with %q are arguments. A guess that
--     comes with an error is left out, as nothing uses it.
--   Pool/Disk, Pool/Snapshots: one environment of internal/store, its paths, its snapshot rows, and
--     Snapshot, DeleteSnapshot, Restore, prunePreRestores of snapshot.go, deleteSubvolumes of
--     btrfs.go, the calls of ioctl.go and the queries of index/queries.sql.go that they make. Each
--     call of the disk or the index takes one `Fate`: it goes as it should, fails, or the daemon dies
--     at it; when no fates are left, calls go. Btrfs makes and deletes a subvolume in one step, and
--     the index is in SQLite, whose LIKE ignores case. A tree of files is a number, and whether a
--     subvolume is read-only is left out.
--   Pool/Calls, Pool/Safety: what holds wherever a sequence of calls ends, and of a restore,
--     stopped anywhere (Safety/Restore) or not at all (Safety/Success).
--   Pool/Reconcile: reconcileSnapshots and indexRecoveredSnapshots of recover.go; its transaction
--     works on a copy of the rows until it commits. Pool/Reconcile/Rows proves the rows right.
--   Watch/Tree: skip, apply, add, forget and report of internal/watch/watch.go. What the walk of a new
--     folder finds and how its marks go comes with the event; a path is a list of names, and a batch
--     is in no order. Watch/Tree/Clean and Watch/Tree/Skipped follow them from event to event.
--   Preview: route, count, isLoading, fail and ServeHTTP of internal/preview/preview.go. The names of
--     hosts in lower case and net.SplitHostPort are arguments; what the store, the actors and the
--     network answer to a request is a Turn. Preview/Route is about what a host names and where a request goes.
--   Runsc: addrs, nsName, veth and netDown of internal/runsc/net.go, and of runsc.go allocate,
--     linkAddrs and the steps by which Wake, netUp and stop change a box's network and directory,
--     with those of other boxes between them. A box's directory holds the text of a number, or the
--     file is missing. netDown's commands take the network down (stop passes over their errors,
--     taking it that what they remove is gone already), and a file that allocate cannot read is
--     one of a box that is being stopped, as its comment says. From allocate on a box counts as
--     having its network, whatever becomes of the commands of netUp.
--     Runsc/Numbers: reading back the number in a file; Runsc/Apart is about the addresses.
--     Octets: the bytes of a 32-bit number.
--   Tests: runs at concrete inputs, and the theorems applied to them.
--
-- Bounds and fuel. The decoder's loops run on fuel that is the length of the bytes that are left:
-- each record and each event takes at least one byte off them, and the decoder is shown never to
-- use the fuel up. A number is printed on fuel that is its own value and one, more than its digits.
-- The search for the free numbers of forks runs on as many steps as numbers can be looked at before
-- enough are free: those asked for and those taken. Go's `int` is read back from decimal digits
-- only below 2^63, as strconv.Atoi refuses others.
--
-- A stream of a backup is cut into chunks on fuel that is its length, as each chunk takes some of
-- it; its counter of chunks wraps at 2^32, and what depends on that says so. A text is trimmed of
-- spaces on fuel that is its length.
--
-- Not modelled: the store's Create, Delete and the rest of Reconcile, the pruning of an
-- environment that had restores, the queue of golden builds, groups of actors and the making of
-- environments, what a backup's archive holds, the requests to the bucket, the rendering ahead of
-- previews, the HTTP API, command streams, the rest of the box driver, the stop of a service and
-- the rest of fern-init, images, and the command line. They are processes, sockets, file systems
-- and SQL queries, or do not touch what is stated here. An actor's calls of them are the answers
-- of a Turn. The free space that checkFree reads is an argument of the store's Snapshot.
-- Goroutines and pipes are sequences of events. Logging and tracing are left out.
pub mod Prelude
pub mod Text
pub mod Decimal
pub mod Sets
pub mod Hibernate
pub mod Octets
pub mod Backup
pub mod Setup
pub mod Preview
pub mod Runsc
pub mod Golden
pub mod OnDemand
pub mod Services
pub mod Ids
pub mod Actor
pub mod Watch
pub mod Jobs
pub mod Pool
mod Tests
