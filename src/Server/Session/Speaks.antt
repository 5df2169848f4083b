-- ===== src/Server/Session/Speaks.antt =====
-- What the task of a connection (redis-lib/src/server.rs, redis-lib/src/cmd) writes: whole frames,
-- whatever arrives and whatever the other tasks do.
use redis_demo.Base.{
  refl, Bool-cases, inl, inr, Bytes, List, [], ◌∷◌, Option, none, some, Outcome, ok, err, panic,
  out_of_fuel, ◌>>=◌, Ensures, returned as ends, failed, panicked, Ensures-bind, Ensures-weaken,
}
use redis_demo.Std.BTreeSet.{Instant}
use redis_demo.Env.{Env}
use redis_demo.Frame.{Frame, integer}
use redis_demo.Failure.{Failure}
use redis_demo.Command.{Command, get, publish, set, subscribe, unsubscribe, ping, unknown, get_name}
use redis_demo.Command.Decode.{from_frame}
use redis_demo.Command.Ending.{from_frame-Halts}
use redis_demo.Db
use redis_demo.Db.{Shared, Broadcast}
use redis_demo.Connection.{Stream, Connection}
use redis_demo.Connection.Write.{write_frame}
use redis_demo.Connection.Write.Sends.{IsFlat}
use redis_demo.Connection.Read.{read_frame}
use redis_demo.Connection.Speaks.{
  Speaks, Speaks-quiet, Speaks-trans, write_frame-Speaks, read_frame-IsQuiet,
}
use redis_demo.Apply.{
  respond, pong, value_frame, get_apply, set_apply, publish_apply, ping_apply, unknown_apply,
}
use redis_demo.Apply.Replies.{value_frame-IsFlat}
use redis_demo.Subscriptions.{
  and_then, StreamMap, holds, make_message_frame, track, subscribe_to_channel, unsubscribe_each,
  chosen, handle, handle_command, make_unsubscribe_frame, guarded, drop_stream, after,
}
use redis_demo.Subscriptions.Subscribes.{make_subscribe_frame-IsFlat}
use redis_demo.Subscriptions.Unsubscribes.{make_unsubscribe_frame-IsFlat}
use redis_demo.Server.Session.{
  Mode, reading, subscribed, Session, Event, delivers, arrives, signals, returned as over,
  subscribe_all, goes_on, enter, apply, serve, serve_subscribed, forward, settle, turn_in, turn,
  run,
}

and_then-Ensures {ℓ κ α β} :
    {T : Type 0} {A : Type ℓ} {B : Type κ} {P : A → Type α} {Q : B → Type β}
    (r : Outcome Failure A × Shared T) (f : A → Shared T → Outcome Failure B × Shared T)
    → Ensures P r.0
    → ((a : A) (db : Shared T) → P a → Ensures Q (f a db).0)
    → Ensures Q (and_then r f).0
and_then-Ensures (ok _, db) f (ends a h) k = k a db h
and_then-Ensures (err _, db) f (failed e) k = failed e
and_then-Ensures (panic, db) f panicked k = panicked
and_then-Ensures (out_of_fuel, db) f h k = elim h [ ]

pong-IsFlat : (o : Option Bytes) → IsFlat (pong o)
pong-IsFlat none = tt
pong-IsFlat (some b) = tt

pub make_message_frame-IsFlat : (k msg : Bytes) → IsFlat (make_message_frame k msg)
unfolding make_message_frame
make_message_frame-IsFlat k msg = (tt, (tt, (tt, tt)))

module _ {S T R M : Type 0} (x : Env) (t : Stream S) (p : StreamMap R M) (b : Broadcast T R) where
  respond-Speaks {ℓ} :
      {A : Type ℓ} (frame_of : A → Frame) (o : Option A) (dst : Connection S)
      → ((a : A) → IsFlat (frame_of a))
      → Ensures (Speaks t dst) (respond t frame_of o dst)
  respond-Speaks frame_of none dst h = panicked
  respond-Speaks frame_of (some a) dst h = write_frame-Speaks t dst (frame_of a) (h a)

  -- A value that holds the connection that spoke.
  abbrev Spoke {ℓ} : {A : Type ℓ} → Connection S → A × Connection S → Type 0
  Spoke dst r = Speaks t dst r.1

  track-Speaks :
      (k : Bytes) (m : M) (dst : Connection S) (o : Option R)
      → Ensures (Spoke dst) (track t p k m dst o)
  track-Speaks k m dst none = panicked
  track-Speaks k m dst (some rx) =
      Ensures-bind
        (write_frame-Speaks t dst _ (make_subscribe_frame-IsFlat k (p.len (p.insert m k rx))))
        λ dst' h. ends _ h

  subscribe_all-Speaks :
      (ks : List Bytes) (m : M) (dst : Connection S) (db : Shared T)
      → Ensures (Spoke dst) (subscribe_all x t p b ks m dst db).0
  unfolding subscribe_all subscribe_to_channel
  subscribe_all-Speaks [] m dst db = ends _ (Speaks-quiet t dst dst refl)
  subscribe_all-Speaks (k ∷ ks) m dst db =
      and_then-Ensures (subscribe_to_channel t p b k m db dst) _
        (track-Speaks k m dst (Db.subscribe b k db).0)
        λ (m', dst') db' h.
          Ensures-weaken (subscribe_all-Speaks ks m' dst' db') λ r. Speaks-trans t dst dst' r.1 h

  enter-Speaks :
      (ks : List Bytes) (m : M) (dst : Connection S) (db : Shared T)
      → Ensures (Spoke dst) (enter x t p b ks m dst db).0
  enter-Speaks ks m dst db =
      and_then-Ensures (subscribe_all x t p b ks m dst db) _ (subscribe_all-Speaks ks m dst db)
        λ r db' h. ends _ h

  goes_on-Speaks :
      (dst : Connection S) (r : Outcome Failure (Connection S) × Shared T)
      → Ensures (Speaks t dst) r.0
      → Ensures (Spoke dst) (goes_on x t p b r).0
  goes_on-Speaks dst r h = Ensures-bind h λ dst' s. ends _ s

  apply-Speaks :
      (now : Instant) (cmd : Command) (dst : Connection S) (db : Shared T)
      → Ensures (Spoke dst) (apply x t p b now cmd dst db).0
  unfolding apply get_apply set_apply publish_apply ping_apply unknown_apply
  apply-Speaks now (get c) dst db =
      goes_on-Speaks dst (get_apply t c db dst)
        (respond-Speaks value_frame _ dst (value_frame-IsFlat t))
  apply-Speaks now (publish c) dst db =
      goes_on-Speaks dst (publish_apply t b c db dst) (respond-Speaks integer _ dst λ _. tt)
  apply-Speaks now (set c) dst db =
      goes_on-Speaks dst (set_apply t x now c db dst) (respond-Speaks _ _ dst λ _. tt)
  apply-Speaks now (subscribe c) dst db = enter-Speaks c.channels p.empty dst db
  apply-Speaks now (ping c) dst db =
      goes_on-Speaks dst (ping_apply t c dst, db) (write_frame-Speaks t dst _ (pong-IsFlat c.echo))
  apply-Speaks now (unknown c) dst db =
      goes_on-Speaks dst (unknown_apply t c dst, db) (write_frame-Speaks t dst _ tt)
  apply-Speaks now (unsubscribe c) dst db = failed _

  each-Speaks :
      (ks : List Bytes) (m : M) (dst : Connection S) (db : Shared T)
      → Ensures (Spoke dst) (unsubscribe_each t p b ks m dst db).0
  unfolding unsubscribe_each
  each-Speaks [] m dst db = ends _ (Speaks-quiet t dst dst refl)
  each-Speaks (k ∷ ks) m dst db =
      and_then-Ensures
        (guarded p b (p.remove m k)
          (write_frame t dst (make_unsubscribe_frame k (p.len (p.remove m k))))
          (drop_stream p b k m db))
        _ (write_frame-Speaks t dst _ (make_unsubscribe_frame-IsFlat k (p.len (p.remove m k))))
        λ dst' db' h.
          Ensures-weaken (each-Speaks ks (p.remove m k) dst' db') λ r. Speaks-trans t dst dst' r.1 h

  abbrev SpokeLast : Connection S → List Bytes × M × Connection S → Type 0
  SpokeLast dst (ks, m, dst') = Speaks t dst dst'

  told-Speaks :
      (ks : List Bytes) (m : M) (dst : Connection S) (cmd : Command)
      → Ensures
          (SpokeLast dst)
          (do dst' ← unknown_apply t (record { command_name = get_name cmd }) dst; ok (ks, m, dst'))
  unfolding unknown_apply
  told-Speaks ks m dst cmd = Ensures-bind (write_frame-Speaks t dst _ tt) λ dst' h. ends _ h

  handle-Speaks :
      (ks : List Bytes) (m : M) (dst : Connection S) (cmd : Command) (db : Shared T)
      → Ensures (SpokeLast dst) (handle t p b ks m dst cmd db).0
  unfolding handle
  handle-Speaks ks m dst (subscribe c) db = ends _ (Speaks-quiet t dst dst refl)
  handle-Speaks ks m dst (unsubscribe c) db =
      and_then-Ensures (unsubscribe_each t p b (chosen t p c.channels m) m dst db) _
        (each-Speaks (chosen t p c.channels m) m dst db) λ r db' h. ends _ h
  handle-Speaks ks m dst (get c) db = told-Speaks ks m dst (get c)
  handle-Speaks ks m dst (publish c) db = told-Speaks ks m dst (publish c)
  handle-Speaks ks m dst (set c) db = told-Speaks ks m dst (set c)
  handle-Speaks ks m dst (ping c) db = told-Speaks ks m dst (ping c)
  handle-Speaks ks m dst (unknown c) db = told-Speaks ks m dst (unknown c)

  serve-Speaks :
      (now : Instant) (o : Option Frame) (dst : Connection S) (db : Shared T)
      → Ensures (Spoke dst) (serve x t p b now (o, dst) db).0
  serve-Speaks now none dst db = ends _ (Speaks-quiet t dst dst refl)
  serve-Speaks now (some f) dst db =
      and_then-Ensures (from_frame x f, db) _ (from_frame-Halts x f)
        λ cmd db' _. apply-Speaks now cmd dst db'

  serve_subscribed-Speaks :
      (m : M) (o : Option Frame) (dst : Connection S) (db : Shared T)
      → Ensures (Spoke dst) (serve_subscribed x t p b m (o, dst) db).0
  unfolding handle_command
  serve_subscribed-Speaks m none dst db = ends _ (Speaks-quiet t dst dst refl)
  serve_subscribed-Speaks m (some f) dst db =
      and_then-Ensures (handle_command t p b x f [] m dst db) _
        (and_then-Ensures (guarded p b m (from_frame x f) db) _ (from_frame-Halts x f)
          λ cmd db' _. handle-Speaks [] m dst cmd db')
        λ (ks, m', dst') db' h.
          Ensures-weaken (enter-Speaks ks m' dst' db') λ r. Speaks-trans t dst dst' r.1 h

  -- A frame is read, then served; `db` is the database once the read is over.
  read_then :
      (s : Session S M) (db : Shared T)
      (k : Option Frame × Connection S
        → Shared T
        → Outcome Failure (Mode M × Connection S) × Shared T)
      → ((o : Option Frame) (dst : Connection S) (db : Shared T)
          → Ensures (Spoke dst) (k (o, dst) db).0)
      → Ensures
          (λ s'. Speaks t s.dst s'.dst)
          (settle x t p b s.shutdown (and_then (read_frame x t s.dst, db) k)).0
  read_then s db k h =
      Ensures-bind
        (and_then-Ensures (read_frame x t s.dst, db) k (read_frame-IsQuiet t x s.dst)
          λ (o, dst) db' same.
            Ensures-weaken (h o dst db')
              λ r. Speaks-trans t s.dst dst r.1 (Speaks-quiet t s.dst dst same))
        λ r spoke. ends _ spoke

  message-Speaks :
      (m : M) (k msg : Bytes) (dst : Connection S)
      → Ensures (Spoke dst) (forward x t p b m k msg dst)
  message-Speaks m k msg dst =
      Ensures-bind (write_frame-Speaks t dst _ (make_message_frame-IsFlat k msg)) λ dst' h. ends _ h

  pub turn-Speaks :
      (event : Event) (s : Session S M) (db : Shared T)
      → Ensures (λ s'. Speaks t s.dst s'.dst) (turn x t p b event s db).0
  unfolding turn
  turn-Speaks event s db = go s.mode event
    where
      go :
          (mode : Mode M) (event : Event)
          → Ensures (λ s'. Speaks t s.dst s'.dst) (turn_in x t p b mode event s db).0
      go reading (arrives now) = read_then s db (serve x t p b now) (serve-Speaks now)
      go reading signals = ends _ (Speaks-quiet t s.dst s.dst refl)
      go reading (delivers k msg) = ends _ (Speaks-quiet t s.dst s.dst refl)
      go (subscribed m) (arrives now) =
          read_then s (after p b (read_frame x t s.dst) m db) (serve_subscribed x t p b m)
            (serve_subscribed-Speaks m)
      go (subscribed m) signals = ends _ (Speaks-quiet t s.dst s.dst refl)
      go (subscribed m) (delivers k msg) = elim (Bool-cases (holds k (p.keys m))) [
        | inl listens ↦ rw listens (Ensures-bind (message-Speaks m k msg s.dst) λ r h. ends _ h)
        | inr deaf ↦ rw deaf (ends _ (Speaks-quiet t s.dst s.dst refl))
      ]
      go over event = ends _ (Speaks-quiet t s.dst s.dst refl)

  -- Whatever events the task of a connection turns on, whatever arrives, and whatever the database
  -- holds at each turn: the turns come to an end, within their fuel; and if none fails or panicked, the
  -- task has written some frames, none of them an array of arrays, each whole and in its wire form, and
  -- nothing else.
  pub run-Speaks :
      (events : List (Event × Shared T)) (s : Session S M)
      → Ensures (λ s'. Speaks t s.dst s'.dst) (run x t p b events s)
  unfolding run
  run-Speaks [] s = ends _ (Speaks-quiet t s.dst s.dst refl)
  run-Speaks ((event, db) ∷ events) s =
      Ensures-bind (turn-Speaks event s db)
        λ s' h. Ensures-weaken (run-Speaks events s') λ s''. Speaks-trans t s.dst s'.dst s''.dst h
