-- ===== src/Lib.antt =====
-- sfync keeps a local directory and a directory on an SFTP or FTP server alike: `sfync up` and
-- `sfync down` mirror one side to the other, and a daemon uploads files as they change.
--
-- A mirror (internal/transfer/mirror.go) walks both sides, compares them, sorts the differences and
-- carries them out through a RemoteClient (internal/transfer/client.go). The daemon puts changed
-- files into an upload queue (internal/watcher/queue.go), whose workers lease connections from the
-- ConnectionPool (internal/transfer/pool.go). An FTP client spreads its requests over the sessions of
-- a connPool (internal/transfer/connpool.go). Profiles come from internal/config, ignored paths from
-- internal/syncignore.
--
-- Base holds what the modules share: tests, lists, Go maps as association lists (Base.Dict), byte
-- strings, and the functions of package path that are used (Base.Paths).
--
-- Config: types.go and config.go of internal/config; Config.Rules: what a valid profile is.
-- Ignore: syncignore.go of internal/syncignore; the glob matcher is a parameter.
-- Transfer.Types, Transfer.Client: the data, names, timeouts and errors of client.go.
-- Transfer.Remote: the interface RemoteClient over an unknown state of the world, and the disk.
-- Transfer.Mirror.Diff: diffTrees and isDifferent. Transfer.Mirror.Order: sortActions and
-- depthLevels, with sort.Slice a parameter that Transfer.Mirror.Insertion fills.
-- Transfer.Mirror.Transfers: runTransfers, its workers and the reconnects.
-- Transfer.Mirror.Execute: executeUp and executeDown. Transfer.Mirror.Scan: walkLocal and
-- the serial walkRemote; Scan.Remote: its goroutines. Transfer.Mirror.Sync: MirrorUp and MirrorDown.
-- Transfer.ConnPool: connpool.go, each stretch under the lock one step; Run has the step relation.
-- Transfer.Pool: pool.go, likewise; Leases and Stale have the facts.
-- Transfer.Deadline: deadline.go of internal/transfer.
-- Transfer.Views: contents of files as seen through an unknown world, in which the laws of servers
-- and disks are stated. Transfer.Store: a concrete world for the tests.
-- Transfer.Atomic: atomic.go, with Atomic.Commit on writeLocalAtomic.
-- Transfer.Sftp: sftp.go over a session of package sftp: listings and uploads; Sftp.Fetch: downloads;
-- Sftp.Dirs: MkdirAll and the single requests; Sftp.Sessions: transferSession; Sftp.Server: what is
-- asked of a server.
-- Transfer.Ftp: ftp.go over a connection of package ftp: uploads and withConn; Ftp.Clock: the offset of
-- listings; Ftp.Fetch: listings and downloads; Ftp.Dirs: MkdirAll and the single commands.
-- Transfer.FtpSession: ftpsession.go.
-- Transfer.Swap: a partial file renamed over a target, for both clients.
-- Watcher.Flight: Enqueue, Start, claim and finish of queue.go, as steps of any number of workers.
-- Watcher.Process: processUpload and deleteRemote of queue.go, with a log of what others see.
-- Watcher.Debounce: debounce.go, with timers that expire on their own. Watcher.Notifier: notifier.go.
-- Watcher.Watch: watcher.go, with the events in Watch.Events.
-- Daemon: cmd/daemon.go, which profiles are watched at the start and after a reload.
--
-- A mutex makes what it guards one step; steps of different goroutines interleave freely. Errors of
-- libraries are records of what the program asks of them. Numbers are natural numbers where the
-- program keeps them above zero; sums of durations wrap as int64 does.
--
-- The goroutines of runTransfers and walkRemote move as a scheduler chooses, which is a parameter: a
-- function of the world at the start of a run and of the moves that are left. Where the one that it
-- chooses is blocked, another one moves.
--
-- Fuel: `levels_loop` runs on the number of entries, of which each round takes one. `run_transfers`
-- makes seven moves for each job, which is as many as a job can take. `walk_remote` runs on a bound on
-- the number of directories below the root: the serial walk on how deep it is, the concurrent one on
-- three moves for each directory; both give none where that is not enough. No other function
-- runs on fuel.
--
-- Not modelled: connecting and authentication over SSH and FTP, what is printed, the command line,
-- mounting, the wake-ups of a sync.Cond (a goroutine that waits may look again at any time), and how
-- the requests of transfers that run at once interleave on the server.
pub mod Base
pub mod Config
pub mod Daemon
pub mod Ignore
pub mod Transfer
pub mod Watcher
