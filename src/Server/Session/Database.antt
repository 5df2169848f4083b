-- ===== src/Server/Session/Database.antt =====
-- What the task of a connection (redis-lib/src/server.rs) does to the database: operations of
-- redis-lib/src/db.rs, so the database stays consistent whatever the tasks do.
use redis_demo.Base.{
  Bool-cases, inl, inr, Bytes, List, [], ◌∷◌, Option, none, some, Outcome, ok, err, panic,
  out_of_fuel,
}
use redis_demo.Std.BTreeSet.{Instant}
use redis_demo.Env.{Env}
use redis_demo.Frame.{Frame}
use redis_demo.Failure.{Failure}
use redis_demo.Command.{Command, get, publish, set, subscribe, unsubscribe, ping, unknown}
use redis_demo.Command.Decode.{from_frame}
use redis_demo.Db
use redis_demo.Db.{Shared, Broadcast}
use redis_demo.Db.Steps.{Runs, here, next, gets, sets, publishes, subscribes, leaves}
use redis_demo.Connection.{Stream, Connection}
use redis_demo.Connection.Write.{write_frame}
use redis_demo.Connection.Read.{read_frame}
use redis_demo.Apply.{get_apply, set_apply, publish_apply}
use redis_demo.Subscriptions.{
  and_then, StreamMap, holds, subscribe_to_channel, handle_command, handle, chosen,
  unsubscribe_each, make_unsubscribe_frame, release_all, drop_stream, after, guarded, tracked,
  track,
}
use redis_demo.Server.Session.{
  Mode, reading, subscribed, returned, Session, Event, delivers, arrives, signals, subscribe_all,
  enter, apply, serve, serve_subscribed, forward, turn_in, turn,
}

module _ {S T R M : Type 0} (x : Env) (t : Stream S) (p : StreamMap R M) (b : Broadcast T R) where
  pub Runs-trans : {sh sh' sh'' : Shared T} → Runs x b sh sh' → Runs x b sh' sh'' → Runs x b sh sh''
  Runs-trans r here = r
  Runs-trans r (next q step) = next (Runs-trans r q) step

  pub and_then-Runs {ℓ κ} :
      {A : Type ℓ} {B : Type κ} {sh : Shared T} (r : Outcome Failure A × Shared T)
      (f : A → Shared T → Outcome Failure B × Shared T)
      → Runs x b sh r.1
      → ((a : A) (db : Shared T) → Runs x b db (f a db).1)
      → Runs x b sh (and_then r f).1
  and_then-Runs (ok a, db) f h k = Runs-trans h (k a db)
  and_then-Runs (err e, db) f h k = h
  and_then-Runs (panic, db) f h k = h
  and_then-Runs (out_of_fuel, db) f h k = h

  release_all-Runs :
      {sh : Shared T} (ks : List Bytes) (db : Shared T)
      → Runs x b sh db
      → Runs x b sh (release_all b ks db)
  release_all-Runs [] db r = r
  release_all-Runs (k ∷ ks) db r = release_all-Runs ks _ (next r (leaves k))

  drop_stream-Runs :
      {sh : Shared T} (k : Bytes) (m : M) (db : Shared T)
      → Runs x b sh db
      → Runs x b sh (drop_stream p b k m db)
  drop_stream-Runs k m db r = elim (Bool-cases (holds k (p.keys m))) [
    | inl listens ↦ rw listens (next r (leaves k))
    | inr deaf ↦ rw deaf r
  ]

  after-Runs {ℓ} :
      {A : Type ℓ} {sh : Shared T} (o : Outcome Failure A) (m : M) (db : Shared T)
      → Runs x b sh db
      → Runs x b sh (after p b o m db)
  after-Runs (ok a) m db r = r
  after-Runs (err e) m db r = release_all-Runs (p.keys m) db r
  after-Runs panic m db r = release_all-Runs (p.keys m) db r
  after-Runs out_of_fuel m db r = release_all-Runs (p.keys m) db r

  tracked-Runs :
      {sh : Shared T} (k : Bytes) (m : M) (dst : Connection S) (o : Option R) (db : Shared T)
      → Runs x b sh db
      → Runs x b sh (tracked t p b k m dst o db)
  tracked-Runs k m dst none db r = release_all-Runs (p.keys m) db r
  tracked-Runs k m dst (some rx) db r =
      after-Runs (track t p k m dst (some rx)) _ _ (drop_stream-Runs k m db r)

  subscribe_all-Runs :
      (ks : List Bytes) (m : M) (dst : Connection S) (db : Shared T)
      → Runs x b db (subscribe_all x t p b ks m dst db).1
  unfolding subscribe_all subscribe_to_channel
  subscribe_all-Runs [] m dst db = here
  subscribe_all-Runs (k ∷ ks) m dst db =
      and_then-Runs (subscribe_to_channel t p b k m db dst) _
        (tracked-Runs k m dst (Db.subscribe b k db).0 _ (next here (subscribes k)))
        λ (m', dst') db'. subscribe_all-Runs ks m' dst' db'

  enter-Runs :
      (ks : List Bytes) (m : M) (dst : Connection S) (db : Shared T)
      → Runs x b db (enter x t p b ks m dst db).1
  enter-Runs ks m dst db =
      and_then-Runs (subscribe_all x t p b ks m dst db) _ (subscribe_all-Runs ks m dst db)
        λ r db'. here

  apply-Runs :
      (now : Instant) (cmd : Command) (dst : Connection S) (db : Shared T)
      → Runs x b db (apply x t p b now cmd dst db).1
  unfolding apply get_apply set_apply publish_apply
  apply-Runs now (get c) dst db = next here (gets c.key)
  apply-Runs now (publish c) dst db = next here (publishes c.channel c.message)
  apply-Runs now (set c) dst db = next here (sets now c.key c.value c.expire)
  apply-Runs now (subscribe c) dst db = enter-Runs c.channels p.empty dst db
  apply-Runs now (ping c) dst db = here
  apply-Runs now (unknown c) dst db = here
  apply-Runs now (unsubscribe c) dst db = here

  serve-Runs :
      (now : Instant) (o : Option Frame) (dst : Connection S) (db : Shared T)
      → Runs x b db (serve x t p b now (o, dst) db).1
  serve-Runs now none dst db = here
  serve-Runs now (some f) dst db =
      and_then-Runs (from_frame x f, db) _ here λ cmd db'. apply-Runs now cmd dst db'

  each-Runs :
      (ks : List Bytes) (m : M) (dst : Connection S) (db : Shared T)
      → Runs x b db (unsubscribe_each t p b ks m dst db).1
  unfolding unsubscribe_each
  each-Runs [] m dst db = here
  each-Runs (k ∷ ks) m dst db =
      let o = write_frame t dst (make_unsubscribe_frame k (p.len (p.remove m k))) in
      and_then-Runs (guarded p b (p.remove m k) o (drop_stream p b k m db)) _
        (after-Runs o (p.remove m k) _ (drop_stream-Runs k m db here))
        λ dst' db'. each-Runs ks (p.remove m k) dst' db'

  handle-Runs :
      (ks : List Bytes) (m : M) (dst : Connection S) (cmd : Command) (db : Shared T)
      → Runs x b db (handle t p b ks m dst cmd db).1
  unfolding handle
  handle-Runs ks m dst (subscribe c) db = here
  handle-Runs ks m dst (unsubscribe c) db =
      and_then-Runs (unsubscribe_each t p b (chosen t p c.channels m) m dst db) _
        (each-Runs (chosen t p c.channels m) m dst db) λ r db'. here
  handle-Runs ks m dst (get c) db = after-Runs _ m db here
  handle-Runs ks m dst (publish c) db = after-Runs _ m db here
  handle-Runs ks m dst (set c) db = after-Runs _ m db here
  handle-Runs ks m dst (ping c) db = after-Runs _ m db here
  handle-Runs ks m dst (unknown c) db = after-Runs _ m db here

  handle_command-Runs :
      (f : Frame) (m : M) (dst : Connection S) (db : Shared T)
      → Runs x b db (handle_command t p b x f [] m dst db).1
  unfolding handle_command
  handle_command-Runs f m dst db =
      and_then-Runs (guarded p b m (from_frame x f) db) _ (after-Runs (from_frame x f) m db here)
        λ cmd db'. handle-Runs [] m dst cmd db'

  serve_subscribed-Runs :
      (m : M) (o : Option Frame) (dst : Connection S) (db : Shared T)
      → Runs x b db (serve_subscribed x t p b m (o, dst) db).1
  serve_subscribed-Runs m none dst db = release_all-Runs (p.keys m) db here
  serve_subscribed-Runs m (some f) dst db =
      and_then-Runs (handle_command t p b x f [] m dst db) _ (handle_command-Runs f m dst db)
        λ (ks, m', dst') db'. enter-Runs ks m' dst' db'

  -- Whatever event the task of a connection turns on and however the turn ends, what it has done to
  -- the database is a sequence of the operations of `Db` and of drops of receivers.
  pub turn-Runs :
      (event : Event) (s : Session S M) (db : Shared T) → Runs x b db (turn x t p b event s db).1
  unfolding turn
  turn-Runs event s db = go s.mode event
    where
      go : (mode : Mode M) (event : Event) → Runs x b db (turn_in x t p b mode event s db).1
      go reading (arrives now) =
          and_then-Runs (read_frame x t s.dst, db) _ here λ (o, dst) db'. serve-Runs now o dst db'
      go reading signals = here
      go reading (delivers k msg) = here
      go (subscribed m) (arrives now) =
          and_then-Runs (guarded p b m (read_frame x t s.dst) db) _
            (after-Runs (read_frame x t s.dst) m db here)
            λ (o, dst) db'. serve_subscribed-Runs m o dst db'
      go (subscribed m) signals = release_all-Runs (p.keys m) db here
      go (subscribed m) (delivers k msg) = elim (Bool-cases (holds k (p.keys m))) [
        | inl listens ↦ rw listens (after-Runs (forward x t p b m k msg s.dst) m db here)
        | inr deaf ↦ rw deaf here
      ]
      go returned event = here
