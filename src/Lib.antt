-- ===== src/Lib.antt =====
-- A model of the NVDA Remote relay server (the Go package server/), with what holds of it.
--
-- The server accepts connections of NVDA Remote clients. A client joins a channel by name, and from
-- then on every message that it sends is relayed to the other clients of that channel. This
-- development models the state of that process, its handlers of messages and of disconnections, and
-- the queues in front of the clients.
--
-- Files and the code they model:
--   Client              server/client.go: the client, its queue `sd`, `Send` (send), `CloseGracefully`
--                       (close_gracefully), the teardown and the pinger (teardown, ping)
--   Client/Send         what one send does; Client/Overflow: a client that has stopped reading
--   Client/Listen, Client/Framing   the reading loop of `listen`, and the lines it takes from the bytes
--   Writer              the writer goroutine of server/client.go, with the `bufio.Writer`;
--                       Writer/Order, Writer/Delivery, Writer/Alive: what it sends;
--                       Writer/Wire: what a reader at the other end gets
--   Channel             server/clientChannel.go: `ClientChannel`, `Lmotd` (lmotd), `getChannelParams`
--   Channel/Params, Channel/Lmotd   the channel key read back; the message of a locked channel
--   World               server/server.go: the maps `clients` and `channels`, `lastID`, and the heaps of
--                       the objects that their pointers name; `AddClient`, `FindClient`,
--                       `FindChannel`, `RemoveChannel`, and the setters of server/client.go
--   Protocol            server/data.go and the interface of server/jsonFuncs.go's codec
--   Json, Json/Decimal, Json/Origin   server/jsonFuncs.go: `JsonAddOrigin` and its output
--   Json/Encode, Json/Quote   `Encode` of server/jsonFuncs.go with the struct tags of server/data.go, and
--                       how strings are escaped; Json/Line, Json/Relayed: their texts are lines;
--                       Json/Unquote, Json/Separators, Json/ReadBack: a reader of JSON strings, and what it reads
--   Relay, Relay/Delivery   the sends of server/clientChannel.go, and who is reached by them
--   Membership, Membership/Announce   `Add`, `Remove`, `quitLocked` of server/clientChannel.go,
--                       `AddChannel` and `RemoveClient` of server/server.go, and their messages
--   Keys, Keys/Digits, Keys/Fresh   server/genKey.go
--   Commands            server/commands.go: the table of commands and the handlers
--   Server              `MessageReceived` of server/server.go, and the events of a running server;
--                       Server/Session: the reader of `listen` of server/client.go, and what it leaves
--   RemoteAddress, RemoteAddress/Joined   `getIP` of server/connection.go
--   Invariant           the invariant of the maps and pointers. Its modules prove it for writes
--                       (Writes), departures (Leaving, Removing), joins (Joining, Making),
--                       connections (Clients), commands (Steps) and histories (History)
--   Rooms               what the server promises: a table of at most one room for each client, and its
--                       steps. Rooms/Moves, Rooms/Joining, Rooms/Entering and Rooms/Refinement show that
--                       the handlers implement it
--   Config, Config/Atoi   server/conf.go (`conf_apply`), server/configure.go (`validateSettings`,
--                       `handleMotd`) with server/defaults.go, and `strconv.Atoi`; Config/Precedence,
--                       Config/Limits, Config/Numbers
--   Config/File, Config/Lines   server/conf.go: the parser (`conf_read_python`), and files it reads
--   Config/Addresses, Config/Startup, Config/Ready   `build_addresses`, `buildTLSConfig` with `fileExists` of
--                       server/file.go, and `Configure`
--                       of server/configure.go, and what they leave to the start
--   Lifecycle, Lifecycle/Shutdown   the goroutines of a server in server/connection.go with their
--                       WaitGroup, and `wait` of nvdaRemoteServer.go
--   Process, Process/Outcomes   `main` of nvdaRemoteServer.go, `Start` of server/configure.go,
--                       server/pid.go and server/file.go, and how a run ends
--   Daemon              daemon_unix.go (`daemonCmd`, `daemonStart`) and `args` of nvdaRemoteServer.go;
--                       Daemon/Sending, Daemon/Signals, Daemon/Waiting, Daemon/Pidfiles: whom the
--                       commands signal, how long they wait, and which pid file they use
--   Flags               `flag.Parse` of Go's library; Flags/Values, Flags/Registered: `registerFlags` of
--                       server/configure.go with the defaults of server/defaults.go; Flags/Dashed,
--                       Flags/Printed, Flags/Options: command lines; Flags/Kept, Flags/Child, Flags/Found, Flags/Agreement,
--                       Flags/Launch: `Configure` from the command line on, and the pid file of a server
--                       that daemon_unix.go starts
--   Certificate, Certificate/Chain, Certificate/Serial   server/genCert.go
--   Logger, Logger/Filter, Logger/Output   server/logger.go: which messages `Log` writes, and where
--   Queues              laws that a property of queues may have, and that every handler keeps such a
--                       property: the sends (Queues), the channels (Queues/Channels), the handlers
--                       (Queues/Handlers), histories (Queues/History); Queues/Valid, Queues/Lines: two
--                       such properties
--   Isolation, Joins, Panics   theorems on relayed messages, on joins and on panics
--   Races               interleavings inside a join
--   Examples            a small server and its runs, with the theorems applied to them
--   Common, GoMap       shared types and lemmas, Go's maps
--   Strings             `strings.Index` and prefixes; Strings/Split: `strings.Split`, `strings.Cut` and
--                       `strings.TrimSuffix`; Strings/Space, Strings/Trimming: `strings.TrimSpace`
--
-- How the code is rendered. A pointer is an address, a natural number, into a heap of clients or of
-- channels (`client_at`, `channel_at`), and an object is a record there. Go's nil map is `none`. A Go
-- map is an association list with one entry for each key. A run-time panic is the result `panic`
-- of `Outcome`, and ends the process. A handler is a function from the state to the state. It is
-- one step in `run`, although the source takes its locks several times in a `join`: what this hides
-- is the subject of Races. Where a `select` has several ready cases Go picks at random: the picks
-- are part of a client's `Outbox`. Client ids are the 32-bit counter of the source, and the drop
-- counter is an unsigned 32-bit number, both with their wrap-around.
--
-- Bounds. Every definition is by structural recursion. The printing of a number takes fuel, its
-- value plus one, which is more than the number of its digits. Trimming a text and reading the messages
-- of a connection take as many rounds as there are bytes, each of which uses one up, and the flags as
-- many as there are arguments. `waitForProcess` makes its 50 attempts. The loop of `gen_key` runs over
-- the reads of the random generator that are given to it, and the result `drawing` says that they were all used up.
--
-- Parameters. `json.Marshal` and `json.Unmarshal` at the type `Data` are the record `Codec`, which
-- every handler that encodes or decodes takes; what is assumed is that an encoded text is not
-- empty. For `json.Marshal` there is a definition too (Json/Encode), and a theorem that needs it says
-- so. The bytes of `crypto/rand` are arguments. A floating point number is of a parameter type,
-- with the comparison and the parser that the code uses. What the connection answers to a write is
-- an argument. The start of the server (Config/Startup) takes the file system, CertMagic, the generator
-- and the loader of certificates as functions in a record, the process (Process) takes what the file
-- system answers and which file a path names, and the daemon commands (Daemon) take what
-- the system answers about processes, files and programs: the answer to the n-th question whether a
-- process lives may be anything. The libraries of server/genCert.go are functions in a record
-- (Certificate).
--
-- Not modelled: opening sockets, their options and deadlines (server/connection.go and the beginning of
-- `listen`), what `json.Unmarshal` accepts, the text of the log (server/logger.go), `CatchPanic` of
-- server/shutdown.go, `versionSetter` of nvdaRemoteServer.go, daemon_windows.go, which prints a message,
-- and build information (buildInfo.go). Logging is left out of every operation: of the log file only its
-- creation is modelled, and the messages that the process appends to it are not.
pub mod Common
pub mod GoMap
pub mod Strings
pub mod Protocol
pub mod Client
pub mod Channel
pub mod World
pub mod Json
pub mod Relay
pub mod Keys
pub mod Commands
pub mod Server
pub mod Invariant
pub mod Isolation
pub mod Joins
pub mod Races
pub mod Panics
pub mod Queues
pub mod Rooms
pub mod Lifecycle
pub mod Process
pub mod Daemon
pub mod Writer
pub mod Config
pub mod RemoteAddress
pub mod Certificate
pub mod Flags
pub mod Logger
mod Examples
pub mod Membership
