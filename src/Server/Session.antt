-- ===== src/Server/Session.antt =====
-- `process` (redis-lib/src/server.rs) with `Command::apply` (redis-lib/src/cmd/mod.rs) and
-- `Subscribe::apply` (redis-lib/src/cmd/subscribe.rs): the task of a connection as a machine that an
-- event moves from one wait of a `select!` to the next. Other tasks may change the database between.
pub mod Speaks
pub mod Database
pub mod Answers
pub mod Pipelines
pub mod Subscribing
use redis_demo.Base.{
  Bool, true, false, if◌then◌else◌, Bytes, List, [], ◌∷◌, Option, none, some, Outcome, ok, err,
  panic, out_of_fuel, ◌>>=◌,
}
use redis_demo.Std.BTreeSet.{Instant}
use redis_demo.Env.{Env}
use redis_demo.Frame.{Frame}
use redis_demo.Failure.{Failure, unsubscribe_unsupported}
use redis_demo.Command.{Command, get, publish, set, subscribe, unsubscribe, ping, unknown}
use redis_demo.Command.Decode.{from_frame}
use redis_demo.Db.{Shared, Broadcast}
use redis_demo.Connection.{Stream, Connection}
use redis_demo.Connection.Write.{write_frame}
use redis_demo.Connection.Read.{read_frame}
use redis_demo.Apply.{get_apply, set_apply, publish_apply, ping_apply, unknown_apply}
use redis_demo.Subscriptions.{
  StreamMap, holds, make_message_frame, subscribe_to_channel, handle_command, and_then, guarded,
  drop_all,
}

-- `Shutdown`, without its receiver.
pub record Shutdown : Type 0 where
  pub is_shutdown : Bool

-- `Shutdown::new`
abbrev pub new : Shutdown
new = record { is_shutdown = false }

-- `Shutdown::recv` once the signal has come
abbrev pub recv : Shutdown → Shutdown
recv s = if s.is_shutdown then s else record { is_shutdown = true }

-- Where the task waits: in `process`, in `Subscribe::apply`, or nowhere, past its end.
pub data Mode (M : Type 0) : Type 0 where
  reading returned : Mode M
  subscribed : M → Mode M

pub record Session (S M : Type 0) : Type 0 where
  pub mode : Mode M
  pub dst : Connection S
  pub shutdown : Shutdown

-- A branch of a `select!`: a message on a channel, the read of a frame, after which the
-- clock says `now`, or the shutdown signal.
pub data Event : Type 0 where
  delivers : Bytes → Bytes → Event
  arrives : Instant → Event
  signals : Event

module _ {S T R M : Type 0} (x : Env) (t : Stream S) (p : StreamMap R M) (b : Broadcast T R) where
  -- `for channel in self.channels.drain(..) { … }`
  unfoldable pub subscribe_all :
      List Bytes → M → Connection S → Shared T → Outcome Failure (M × Connection S) × Shared T
  subscribe_all [] subscriptions dst db = (ok (subscriptions, dst), db)
  subscribe_all (channel ∷ channels) subscriptions dst db =
      and_then (subscribe_to_channel t p b channel subscriptions db dst)
        λ (subscriptions', dst') db'. subscribe_all channels subscriptions' dst' db'

  -- A command other than a subscription leaves the task in `process`.
  abbrev pub goes_on :
      Outcome Failure (Connection S) × Shared T → Outcome Failure (Mode M × Connection S) × Shared T
  goes_on (o, db) = (do dst ← o; ok (reading, dst), db)

  -- The channels are subscribed to before the task waits in `Subscribe::apply`.
  abbrev pub enter :
      List Bytes → M → Connection S → Shared T → Outcome Failure (Mode M × Connection S) × Shared T
  enter channels subscriptions dst db =
      and_then (subscribe_all channels subscriptions dst db)
        λ (subscriptions', dst') db'. (ok (subscribed subscriptions', dst'), db')

  -- `Command::apply`, as far as the first wait of `Subscribe::apply`
  unfoldable pub apply :
      Instant
      → Command
      → Connection S
      → Shared T
      → Outcome Failure (Mode M × Connection S) × Shared T
  apply now (get cmd) dst db = goes_on (get_apply t cmd db dst)
  apply now (publish cmd) dst db = goes_on (publish_apply t b cmd db dst)
  apply now (set cmd) dst db = goes_on (set_apply t x now cmd db dst)
  apply now (subscribe cmd) dst db = enter cmd.channels p.empty dst db
  apply now (ping cmd) dst db = goes_on (ping_apply t cmd dst, db)
  apply now (unknown cmd) dst db = goes_on (unknown_apply t cmd dst, db)
  apply now (unsubscribe cmd) dst db = (err unsubscribe_unsupported, db)

  -- The frame that was read in `process`; without one the task ends.
  abbrev pub serve :
      Instant
      → Option Frame × Connection S
      → Shared T
      → Outcome Failure (Mode M × Connection S) × Shared T
  serve now (none, dst) db = (ok (returned, dst), db)
  serve now (some frame, dst) db =
      and_then (from_frame x frame, db) λ cmd db'. apply now cmd dst db'

  -- The frame that was read in `Subscribe::apply`; without one it returns and `process` goes on. New channels are
  -- subscribed to before the next wait.
  abbrev pub serve_subscribed :
      M
      → Option Frame × Connection S
      → Shared T
      → Outcome Failure (Mode M × Connection S) × Shared T
  serve_subscribed subscriptions (none, dst) db = (ok (reading, dst), drop_all p b subscriptions db)
  serve_subscribed subscriptions (some frame, dst) db =
      and_then (handle_command t p b x frame [] subscriptions dst db)
        λ (channels, subscriptions', dst') db'. enter channels subscriptions' dst' db'

  abbrev pub with_mode : Shutdown → Mode M × Connection S → Session S M
  with_mode shutdown (mode, dst) = record { mode = mode; dst = dst; shutdown = shutdown }

  abbrev pub settle :
      Shutdown
      → Outcome Failure (Mode M × Connection S) × Shared T
      → Outcome Failure (Session S M) × Shared T
  settle shutdown (o, db) = (do r ← o; ok (with_mode shutdown r), db)

  -- The signal ends `Subscribe::apply` and the loop of `process`.
  abbrev pub stop : Session S M → Session S M
  stop s = record { mode = returned; dst = s.dst; shutdown = recv s.shutdown }

  abbrev pub forward : M → Bytes → Bytes → Connection S → Outcome Failure (Mode M × Connection S)
  forward m channel msg dst = do
    dst' ← write_frame t dst (make_message_frame channel msg)
    ok (subscribed m, dst')

  -- A branch of the `select!` of `Subscribe::apply`, which drops its streams where it ends. An event that the task does not wait for changes
  -- nothing, here and in `process`.
  abbrev pub turn_subscribed :
      M → Event → Session S M → Shared T → Outcome Failure (Session S M) × Shared T
  turn_subscribed m (arrives now) s db =
      settle s.shutdown (and_then (guarded p b m (read_frame x t s.dst) db) (serve_subscribed m))
  turn_subscribed m signals s db = (ok (stop s), drop_all p b m db)
  turn_subscribed m (delivers channel msg) s db =
      if holds channel (p.keys m)
      then settle s.shutdown (guarded p b m (forward m channel msg s.dst) db)
      else (ok s, db)

  abbrev pub turn_in :
      Mode M → Event → Session S M → Shared T → Outcome Failure (Session S M) × Shared T
  turn_in reading (arrives now) s db =
      settle s.shutdown (and_then (read_frame x t s.dst, db) (serve now))
  turn_in reading signals s db = (ok (stop s), db)
  turn_in reading (delivers channel msg) s db = (ok s, db)
  turn_in (subscribed m) event s db = turn_subscribed m event s db
  turn_in returned event s db = (ok s, db)

  unfoldable pub turn : Event → Session S M → Shared T → Outcome Failure (Session S M) × Shared T
  turn event s db = turn_in s.mode event s db

  -- The turns of a task, each with the database that it finds.
  unfoldable pub run : List (Event × Shared T) → Session S M → Outcome Failure (Session S M)
  run [] s = ok s
  run ((event, db) ∷ events) s = do s' ← (turn event s db).0; run events s'
