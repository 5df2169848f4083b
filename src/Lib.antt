-- ===== src/Lib.antt =====
-- redis-demo: a Redis server and client in Rust. The paths below are from the repository's root.
--
-- A peer sends a request as a frame. The connection collects bytes in a buffer until `Frame::check`
-- finds a whole frame in it, and `Frame::parse` makes the frame. `Command::from_frame` decodes it with
-- the methods of `Parse`, and `apply` of the command runs an operation of the shared database and
-- writes the response as a frame. The client writes a request in the same form and reads the response.
--
-- The files:
-- - Base: names of the libraries, Boolean tests, lists, and `Outcome`, the result of a run that
--   returns, fails or panics.
-- - Std: what the program uses of Rust's standard library: UTF-8, decimal numbers, `HashMap` and
--   `BTreeSet`, as functions with their laws.
-- - Env: the crates `atoi` and `bytes` (with the `Debug` of `Bytes`), the case tables of Unicode and
--   the build, as a record of operations and of documented laws. Every definition that needs one of
--   them takes that record.
-- - Frame, with Frame/Reader (the functions that read from the cursor), Frame/Wire (the reference form
--   of a frame on the wire), Frame/Decoder (`check` and `parse`) and Frame/Display (the text of a
--   frame): redis-lib/src/frame.rs.
-- - Parse: redis-lib/src/parse.rs. Failure: `crate::Error` of redis-lib/src/lib.rs; Failure/Text has the
--   texts of the errors.
-- - Command, with Command/IntoFrame (`into_frame`) and Command/Decode (`parse_frames`, `from_frame`):
--   redis-lib/src/cmd. Apply: `apply` of `Get`, `Set`, `Publish`, `Ping` and `Unknown` there.
-- - Subscriptions: `subscribe_to_channel` and `handle_command` of redis-lib/src/cmd/subscribe.rs, over
--   the record `StreamMap`, which says what the program relies on of tokio's stream map.
--   Subscriptions/Messages: the stream of the messages of a subscription there, over the record
--   `Backlog` for the receivers of tokio's broadcast channels; no message is sent between the rounds of
--   one poll.
--   A receiver is dropped where its stream is: `StreamMap::insert` drops the stream that it replaces
--   and `StreamMap::remove` the one that it removes (`drop_stream` in Subscriptions), and the end of
--   `Subscribe::apply`, by a return, an error or a panic, drops the map with all its streams
--   (`drop_all`). Each drop is `release` in Db, which lowers the count that `publish` answers.
-- - Db: redis-lib/src/db.rs. The state behind the mutex is passed explicitly, with a flag for a
--   poisoned mutex; the clock is an argument of the operations that read it. `Step` and `Runs` in
--   Db/Steps are the sequences of operations of all connections and of drops of receivers, in any
--   order; `Moves` in Db/Task adds
--   the steps of the background task and the notification that wakes it. Db/Spec is the promise of the
--   database: calls and replies over a plain map; Db/Spared has the operations that leave a value
--   alone.
-- - Connection, with Connection/Write and Connection/Read: redis-lib/src/connection.rs, over the
--   record `Stream`, which says what the program relies on of tokio's buffered stream.
-- - Server: `Listener::accept` of redis-lib/src/server.rs. Server/Process: the read and the decoding of
--   a request in `process`. Server/Session: `process`, `Command::apply` and `Subscribe::apply` as a
--   machine; a branch of a `select!` is an event, and each turn gets the database that it finds, since
--   other tasks change it between the turns. Server/Session/Pipelines has a client that sends many
--   requests at once, Server/Session/Subscribing the turn on a `SUBSCRIBE`. Server/Session models
--   redis-lib/src/shutdown.rs, too. Server/Run: `run` and `Listener::run`, a relation between the states of the whole server.
-- - Client, with Client/Subscriber: redis-lib/src/clients/client.rs. Cli: redis-bin/src/bin/cli.rs,
--   `duration_from` and `main` behind the parsing of its arguments; the result is the list of the lines
--   that were printed and how the program ended. `TcpStream::connect` is the record `Network`.
-- - Demo: redis-bin/src/main.rs. Server/Program: redis-bin/src/bin/server_proxy.rs.
-- - Exchange: the client and the server at the two ends of a connection; in Exchange/Interleaved other
--   tasks use the database between two requests, and in Exchange/Subscribing a client subscribes.
-- - Examples: a world in which all assumptions hold, and the theorems at inputs in it.
--
-- Numbers are natural numbers; where the program adds in `usize` the overflow is written out, as a
-- panic or a wrap-around. A text is the list of its bytes. An instant and a duration are numbers of
-- nanoseconds. Fuel: `check` and `parse` get one more than the bytes of the buffer, since a call reads
-- a byte before it calls itself; `read_frame` gets one more than the bytes that are still to arrive,
-- since a read brings a byte or ends the stream; the loops over the frames of a command get one more
-- than the frames; a poll of a subscription's stream gets two rounds; the purge gets the number of
-- instants; `accept` gets eight rounds. The loop over the messages of a subscription in
-- redis-bin/src/bin/cli.rs takes its fuel as an argument, and one round more than the messages is
-- enough.
--
-- Not modelled: the parsing of the arguments of the programs by clap, logging and tracing, and what is
-- left of a subscriber when a call on it fails. In the machine of a task, a message that a stream has
-- yielded is an event; which stream of the map is polled first is not modelled.
pub mod Base
pub mod Std
pub mod Env
pub mod Frame
pub mod Parse
pub mod Failure
pub mod Command
pub mod Db
pub mod Connection
pub mod Server
pub mod Subscriptions
pub mod Apply
pub mod Client
pub mod Cli
pub mod Demo
pub mod Exchange
mod Examples
