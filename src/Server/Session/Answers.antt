-- ===== src/Server/Session/Answers.antt =====
-- A round of `process` (redis-lib/src/server.rs) that reads a `GET`, a `SET` or a `PUBLISH`.
use redis_demo.Base.{
  some_eq, ◌≡◌, refl, sym, ◌∙◌, ap, subst, true, ◌++◌, Bytes, codes, Option, none, some, Outcome,
}
use redis_demo.Std.BTreeSet.{Instant}
use redis_demo.Env.{Env}
use redis_demo.Frame.{Frame, simple, integer}
use redis_demo.Frame.Wire.{encode, IsWire}
use redis_demo.Failure.{Failure, OrIo, returned, broken, OrIo-bind}
use redis_demo.Command.{Command, get, publish, set, subscribe, unsubscribe, ping, unknown}
use redis_demo.Command.RoundTrip.{into_frame, IsRequest, received, from_frame-into_frame}
use redis_demo.Db
use redis_demo.Db.{Shared, Broadcast}
use redis_demo.Db.Spec.{
  Call, gets, sets, publishes, Reply, done, found, reached, answer, told, fits, view,
}
use redis_demo.Db.Spec.Kept.{IsOpen, IsKept, panicked, answered, execute-IsKept}
use redis_demo.Connection.{Stream, Connection, Breaks}
use redis_demo.Connection.Write.{write_frame}
use redis_demo.Connection.Write.Sends.{IsFlat, write_frame-OrIo}
use redis_demo.Connection.Read.Reads.{read_frame-OrIo}
use redis_demo.Subscriptions.{and_then, StreamMap}
use redis_demo.Apply.{value_frame, respond, get_apply, set_apply, publish_apply}
use redis_demo.Server.Session.{
  Mode, reading, Session, arrives, goes_on, apply, serve, turn_in, turn,
}

-- The call of the database that a command makes at the instant `now`.
abbrev pub call_of : Instant → Command → Option Call
call_of now (get c) = some (gets c.key)
call_of now (publish c) = some (publishes c.channel c.message)
call_of now (set c) = some (sets now c.key c.value c.expire)
call_of now _ = none

-- The frame that tells the client of a reply.
abbrev pub reply_frame : Reply → Frame
reply_frame done = simple (codes "OK")
reply_frame (found value) = value_frame value
reply_frame (reached n) = integer n

reply_frame-IsFlat : (r : Reply) → IsFlat (reply_frame r)
reply_frame-IsFlat done = tt
reply_frame-IsFlat (found none) = tt
reply_frame-IsFlat (found (some value)) = tt
reply_frame-IsFlat (reached n) = tt

module _ {T R : Type 0} (x : Env) (b : Broadcast T R) (call : Call) (db : Shared T) where
  kept-none :
      fits x call ≡ true
      → (r : Option Reply × Shared T) {db' : Shared T} → IsKept x b call db r
      → r ≡ (none, db')
      → ⊥
  kept-none fit _ (panicked sh' off) e = cc (fit, off)
  kept-none fit _ (answered sh' on called still) e = cc (ap (λ q. q.0) e)

  kept-some :
      (r : Option Reply × Shared T) {rep : Reply} {db' : Shared T}
      → IsKept x b call db r
      → r ≡ (some rep, db')
      → (rep ≡ (answer call (view x b db)).0)
        × ((view x b db' ≡ (answer call (view x b db)).1) × IsOpen db')
  kept-some _ (panicked sh' off) e = cc (ap (λ q. q.0) e)
  kept-some _ (answered sh' on called still) e = (
    some_eq (sym (ap (λ q. q.0) e)),
    (
      subst (λ q. view x b q ≡ (answer call (view x b db)).1) (ap (λ q. q.1) e) called,
      subst IsOpen (ap (λ q. q.1) e) still,
    ),
  )

module _ {S T R : Type 0} (x : Env) (t : Stream S) (b : Broadcast T R) where
  -- The client is sent the reply that the promise of the database gives, the request is consumed,
  -- the task waits for the next one, and the database has made the call.
  pub record IsServed {M : Type 0} (call : Call) (rest : Bytes) (dst : Connection S) (db : Shared T)
      (mode : Mode M) (dst' : Connection S) (db' : Shared T) : Type 0 where
    pub goes_on_reading : mode ≡ reading
    pub reply_written :
        t.written dst'.stream
        ≡ t.written dst.stream ++ encode (reply_frame (answer call (view x b db)).0)
    pub reply_flushed : t.flushed dst'.stream ≡ t.written dst'.stream
    pub left : dst'.read_buf ++ t.arriving dst'.stream ≡ rest
    pub called : view x b db' ≡ (answer call (view x b db)).1
    pub still_open : IsOpen db'

  abbrev pub OrIoWith :
      {A : Type 0} → (A → Shared T → Type 0) → Outcome Failure A × Shared T → Type 0
  OrIoWith P r = OrIo (Breaks t) (λ a. P a r.1) r.0

  pub OrIo-and_then :
      {A B : Type 0} {P : A → Type 0} {m : Outcome Failure A} {db : Shared T}
      (Q : B → Shared T → Type 0) (f : A → Shared T → Outcome Failure B × Shared T)
      → OrIo (Breaks t) P m
      → ((a : A) → P a → OrIoWith Q (f a db))
      → OrIoWith Q (and_then (m, db) f)
  OrIo-and_then Q f (returned a h) k = k a h
  OrIo-and_then Q f (broken h) k = broken h

  module _ {M : Type 0} (p : StreamMap R M) (call : Call) (rest : Bytes) (dst : Connection S)
      (db : Shared T) (fit : fits x call ≡ true) where
    abbrev Serves : Outcome Failure (Mode M × Connection S) × Shared T → Type 0
    Serves = OrIoWith λ r db'. IsServed call rest dst db r.0 r.1 db'

    -- The connection `c` has read the request.
    module _ (c : Connection S) (left : c.read_buf ++ t.arriving c.stream ≡ rest)
        (same_written : t.written c.stream ≡ t.written dst.stream) where
      write-Serves :
          (rep : Reply) (db' : Shared T)
          → rep ≡ (answer call (view x b db)).0
          → view x b db' ≡ (answer call (view x b db)).1
          → IsOpen db'
          → Serves (goes_on x t p b (write_frame t c (reply_frame rep), db'))
      write-Serves rep db' e called still =
          OrIo-bind (write_frame-OrIo t c (reply_frame rep) (reply_frame-IsFlat rep)) λ c' sent.
            returned (reading, c')
              (record {
                goes_on_reading = refl;
                reply_written =
                    sent.written_frame
                    ∙ ap (λ w. w ++ encode (reply_frame rep)) same_written
                    ∙ ap (λ q. t.written dst.stream ++ encode (reply_frame q)) e;
                reply_flushed = sent.all_flushed;
                left =
                    ap (λ q. q ++ t.arriving c'.stream) sent.same_buffer
                    ∙ ap (λ q. c.read_buf ++ q) sent.same_input
                    ∙ left;
                called = called;
                still_open = still;
              })

      respond-Serves :
          {A : Type 0} (reply : A → Reply) (frame_of : A → Frame)
          → ((a : A) → frame_of a ≡ reply_frame (reply a))
          → (r : Option A × Shared T) → IsKept x b call db (told reply r)
          → Serves (goes_on x t p b (respond t frame_of r.0 c, r.1))
      respond-Serves reply frame_of same (none, db') h = absurd (kept-none x b call db fit _ h refl)
      respond-Serves reply frame_of same (some a, db') h =
          let (e, (called, still)) = kept-some x b call db _ h refl in
          subst (λ f. Serves (goes_on x t p b (write_frame t c f, db'))) (sym (same a))
            (write-Serves (reply a) db' e called still)

      apply-Serves :
          (now : Instant) (cmd : Command)
          → IsOpen db
          → call_of now cmd ≡ some call
          → Serves (apply x t p b now cmd c db)
      unfolding apply get_apply set_apply publish_apply
      apply-Serves now (get g) ready e =
          respond-Serves found value_frame (λ v. refl) (Db.get g.key db)
            (subst (λ k. IsKept x b k db (told found (Db.get g.key db))) (some_eq e)
              (execute-IsKept x b db ready (gets g.key)))
      apply-Serves now (publish g) ready e =
          respond-Serves reached integer (λ v. refl) (Db.publish b g.channel g.message db)
            (subst (λ k. IsKept x b k db (told reached (Db.publish b g.channel g.message db)))
              (some_eq e) (execute-IsKept x b db ready (publishes g.channel g.message)))
      apply-Serves now (set g) ready e =
          respond-Serves (λ _. done) (λ _. simple (codes "OK")) (λ v. refl)
            (Db.set x now g.key g.value g.expire db)
            (subst
              (λ k. IsKept x b k db (told (λ _. done) (Db.set x now g.key g.value g.expire db)))
              (some_eq e) (execute-IsKept x b db ready (sets now g.key g.value g.expire)))
      apply-Serves now (subscribe g) ready e = cc
      apply-Serves now (unsubscribe g) ready e = cc
      apply-Serves now (ping g) ready e = cc
      apply-Serves now (unknown g) ready e = cc

  -- In a round of `process` that reads the frame that the client makes of a `GET`, a `SET` or a
  -- `PUBLISH`, on a database that has not panicked and is not shut down: the client is sent the
  -- value, "OK" or the number of receivers that the plain map of the database's promise gives, and
  -- that frame only; the database has made exactly that call; the bytes behind the request are left
  -- to read, and the task waits for the next one; or the stream fails. For a `SET`, the expiry is the
  -- one on the wire, in whole milliseconds, and the platform holds its instant.
  pub turn-answers :
      {M : Type 0} (p : StreamMap R M) (now : Instant) (cmd : Command) (f : Frame) (call : Call)
      (s : Session S M) (db : Shared T) (rest : Bytes)
      → IsWire x.max_capacity f
      → into_frame cmd ≡ some f
      → IsRequest cmd
      → call_of now (received cmd) ≡ some call
      → fits x call ≡ true
      → IsOpen db
      → s.mode ≡ reading
      → s.dst.read_buf ++ t.arriving s.dst.stream ≡ encode f ++ rest
      → OrIo
          (Breaks t)
          (λ s'. IsServed call rest s.dst db s'.mode s'.dst (turn x t p b (arrives now) s db).1)
          (turn x t p b (arrives now) s db).0
  unfolding turn
  turn-answers p now cmd f call s db rest w e h makes fit ready mode whole =
      subst
        (λ m.
          OrIo (Breaks t)
            (λ s'.
              IsServed call rest s.dst db s'.mode s'.dst (turn_in x t p b m (arrives now) s db).1)
            (turn_in x t p b m (arrives now) s db).0)
        (sym mode)
        (OrIo-bind
          (OrIo-and_then (λ r db'. IsServed call rest s.dst db r.0 r.1 db') (serve x t p b now)
            (read_frame-OrIo x f w t s.dst rest whole)
            λ (o, c) (same, left).
              subst (λ q. Serves p call rest s.dst db fit (serve x t p b now (q, c) db)) (sym same)
                (subst
                  (λ q.
                    Serves p call rest s.dst db fit
                      (and_then (q, db) λ k db'. apply x t p b now k c db'))
                  (sym (from_frame-into_frame x cmd f e h))
                  (apply-Serves p call rest s.dst db fit c left.left left.same_written now
                    (received cmd) ready makes)))
          λ r served. returned _ served)
