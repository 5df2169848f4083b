-- ===== src/Server/Session/Pipelines.antt =====
-- The rounds of `process` (redis-lib/src/server.rs) on the requests of a client that sends one after the
-- other, and may send them all before it reads a reply.
pub mod Plain
pub mod Serves
use redis_demo.Base.{
  ◌≡◌, refl, sym, ◌∙◌, ap, subst, true, false, codes, ◌++◌, append_assoc, append-nil, Bytes, List,
  [], ◌∷◌, map, Option, none, some, Outcome, ok,
}
use redis_demo.Std.BTreeSet.{Instant}
use redis_demo.Env.{Env}
use redis_demo.Frame.{Frame, Frames, error, bulk, array, cons}
use redis_demo.Std.Utf8.{is_utf8}
use redis_demo.Command.Foreign.{is_known, from_frame-unknown}
use redis_demo.Frame.Wire.{encode, IsWire}
use redis_demo.Failure.{Failure, returned, OrIo-bind, OrIo-weaken}
use redis_demo.Command.{Command, Ping, ping, unknown}
use redis_demo.Command.IntoFrame.{ping_frame}
use redis_demo.Command.RoundTrip.{into_frame, IsRequest, received, from_frame-into_frame}
use redis_demo.Db.{Shared, Broadcast}
use redis_demo.Db.Spec.{Call, Spec, answer, fits, view}
use redis_demo.Db.Spec.Kept.{IsOpen}
use redis_demo.Connection.{Stream, Connection}
use redis_demo.Connection.Write.{write_frame}
use redis_demo.Command.Decode.{from_frame}
use redis_demo.Connection.Write.Sends.{IsFlat, write_frame-OrIo}
use redis_demo.Connection.Read.Reads.{read_frame-OrIo}
use redis_demo.Subscriptions.{StreamMap}
use redis_demo.Apply.{pong, ping_apply, unknown_apply}
use redis_demo.Server.Session.{
  goes_on, Session, Mode, with_mode, Event, reading, arrives, and_then, apply, serve, turn, turn_in,
}
use redis_demo.Server.Session.Answers.{call_of, reply_frame, turn-answers, OrIoWith, OrIo-and_then}

-- A request, and the instant at which the server reads it: one that makes a call of the database, a
-- `PING`, or one with a name that the server does not know, before any other frames.
pub data Request (x : Env) : Type 0 where
  calling :
      (now : Instant) (cmd : Command) (f : Frame) (call : Call)
      → IsWire x.max_capacity f
      → into_frame cmd ≡ some f
      → IsRequest cmd
      → call_of now (received cmd) ≡ some call
      → fits x call ≡ true
      → Request x
  pinging : (now : Instant) (c : Ping) → IsWire x.max_capacity (ping_frame c) → Request x
  unnamed :
      (now : Instant) (name : Bytes) (fs : Frames)
      → IsWire x.max_capacity (array (cons (bulk name) fs))
      → is_utf8 name ≡ true
      → is_known (x.to_lowercase name) ≡ false
      → Request x

-- The reply to a name that the server does not know.
abbrev pub refusal : Bytes → Frame
refusal name = error (codes "ERR unknown command '" ++ (name ++ codes "'"))

module _ {x : Env} where
  abbrev pub instant_of : Request x → Instant
  instant_of (calling now cmd f call w made request makes fit) = now
  instant_of (pinging now c w) = now
  instant_of (unnamed now name fs w text other) = now

  abbrev pub frame_of : Request x → Frame
  frame_of (calling now cmd f call w made request makes fit) = f
  frame_of (pinging now c w) = ping_frame c
  frame_of (unnamed now name fs w text other) = array (cons (bulk name) fs)

  -- The reply that is promised, and the map that the database is then.
  abbrev pub promised : Request x → Spec → Frame × Spec
  promised (calling now cmd f call w made request makes fit) m =
      (reply_frame (answer call m).0, (answer call m).1)
  promised (pinging now c w) m = (pong c.echo, m)
  promised (unnamed now name fs w text other) m = (refusal (x.to_lowercase name), m)

  abbrev pub frames_of : List (Request x) → Bytes
  frames_of [] = []
  frames_of (r ∷ rs) = encode (frame_of r) ++ frames_of rs

  abbrev pub all_promised : List (Request x) → Spec → Bytes × Spec
  all_promised [] m = ([], m)
  all_promised (r ∷ rs) m =
      let (rest, m') = all_promised rs (promised r m).1 in (encode (promised r m).0 ++ rest, m')

module _ {S T R M : Type 0} (x : Env) (t : Stream S) (p : StreamMap R M) (b : Broadcast T R) where
  -- Turns of a task between which no other task changes the database.
  unfoldable pub turns :
      List Event → Session S M → Shared T → Outcome Failure (Session S M) × Shared T
  turns [] s db = (ok s, db)
  turns (event ∷ events) s db = and_then (turn x t p b event s db) λ s' db'. turns events s' db'

  -- The task has written and flushed `replies`, `rest` is left to read, it waits for the next request,
  -- and the database is the map `m`.
  pub record AreServed (replies rest : Bytes) (m : Spec) (s s' : Session S M) (db' : Shared T)
      : Type 0 where
    pub goes_on_reading : s'.mode ≡ reading
    pub replies_written : t.written s'.dst.stream ≡ t.written s.dst.stream ++ replies
    pub replies_flushed : t.flushed s'.dst.stream ≡ t.written s'.dst.stream
    pub left : s'.dst.read_buf ++ t.arriving s'.dst.stream ≡ rest
    pub called : view x b db' ≡ m
    pub still_open : IsOpen db'
