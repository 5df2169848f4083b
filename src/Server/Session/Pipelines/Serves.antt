-- ===== src/Server/Session/Pipelines/Serves.antt =====
-- What a client that sends many requests at once is answered by `process` (redis-lib/src/server.rs).
use redis_demo.Base.{
  ◌≡◌, refl, sym, ◌∙◌, ap, subst, ◌++◌, append_assoc, append-nil, Bytes, List, [], ◌∷◌, map,
}
use redis_demo.Env.{Env}
use redis_demo.Frame.{bulk, array, cons}
use redis_demo.Command.Foreign.{from_frame-unknown}
use redis_demo.Frame.Wire.{encode}
use redis_demo.Failure.{returned, OrIo-weaken}
use redis_demo.Command.{ping, unknown}
use redis_demo.Command.IntoFrame.{ping_frame}
use redis_demo.Command.RoundTrip.{from_frame-into_frame}
use redis_demo.Db.{Shared, Broadcast}
use redis_demo.Db.Spec.{Spec, view}
use redis_demo.Db.Spec.Kept.{IsOpen}
use redis_demo.Connection.{Stream}
use redis_demo.Subscriptions.{StreamMap}
use redis_demo.Apply.{pong}
use redis_demo.Server.Session.{Session, reading, arrives, turn}
use redis_demo.Server.Session.Answers.{turn-answers, OrIoWith, OrIo-and_then}
use redis_demo.Server.Session.Pipelines.{
  Request, calling, pinging, unnamed, refusal, instant_of, frame_of, promised, frames_of,
  all_promised, turns, AreServed,
}
use redis_demo.Server.Session.Pipelines.Plain.{pong-IsFlat, plain-OrIo, apply-ping, apply-unknown}

module _ {S T R M : Type 0} (x : Env) (t : Stream S) (p : StreamMap R M) (b : Broadcast T R) where
  AreServed-trans :
      (first second middle rest : Bytes) (m m' : Spec) (s s₁ s₂ : Session S M) (db₁ db₂ : Shared T)
      → AreServed x t p b first middle m s s₁ db₁
      → AreServed x t p b second rest m' s₁ s₂ db₂
      → AreServed x t p b (first ++ second) rest m' s s₂ db₂
  AreServed-trans first second middle rest m m' s s₁ s₂ db₁ db₂ h k = record {
    goes_on_reading = k.goes_on_reading;
    replies_written =
        k.replies_written
        ∙ ap (λ w. w ++ second) h.replies_written
        ∙ append_assoc (t.written s.dst.stream) first second;
    replies_flushed = k.replies_flushed;
    left = k.left;
    called = k.called;
    still_open = k.still_open;
  }

  AreServed-next :
      (r : Request x) (rs : List (Request x)) (m : Spec) (middle rest : Bytes)
      (s s₁ s₂ : Session S M) (db₁ db₂ : Shared T)
      → AreServed x t p b (encode (promised r m).0) middle (promised r m).1 s s₁ db₁
      → AreServed x t p b
          (all_promised rs (view x b db₁)).0
          rest
          (all_promised rs (view x b db₁)).1
          s₁
          s₂
          db₂
      → AreServed x t p b (all_promised (r ∷ rs) m).0 rest (all_promised (r ∷ rs) m).1 s s₂ db₂
  AreServed-next r rs m middle rest s s₁ s₂ db₁ db₂ h k =
      AreServed-trans _ _ middle rest (promised r m).1 _ s s₁ s₂ db₁ db₂ h (
        subst (λ q. AreServed x t p b (all_promised rs q).0 rest (all_promised rs q).1 s₁ s₂ db₂)
          h.called k)

  module _ (r : Request x) (s : Session S M) (db : Shared T) (rest : Bytes) where
    turn-AreServed :
        IsOpen db
        → s.mode ≡ reading
        → s.dst.read_buf ++ t.arriving s.dst.stream ≡ encode (frame_of r) ++ rest
        → OrIoWith x t b
            (AreServed x t p b
              (encode (promised r (view x b db)).0)
              rest
              (promised r (view x b db)).1
              s)
            (turn x t p b (arrives (instant_of r)) s db)
    turn-AreServed = go r
      where
        go :
            (r : Request x)
            → IsOpen db
            → s.mode ≡ reading
            → s.dst.read_buf ++ t.arriving s.dst.stream ≡ encode (frame_of r) ++ rest
            → OrIoWith x t b
                (AreServed x t p b
                  (encode (promised r (view x b db)).0)
                  rest
                  (promised r (view x b db)).1
                  s)
                (turn x t p b (arrives (instant_of r)) s db)
        go (calling now cmd f call w made request makes fit) ready mode whole =
            OrIo-weaken
              (turn-answers x t b p now cmd f call s db rest w made request makes fit ready mode
                whole)
              λ s' h. record {
                goes_on_reading = h.goes_on_reading;
                replies_written = h.reply_written;
                replies_flushed = h.reply_flushed;
                left = h.left;
                called = h.called;
                still_open = h.still_open;
              }
        go (pinging now c w) opened mode whole =
            plain-OrIo x t p b (ping c) (ping_frame c) (pong c.echo) (pong-IsFlat x t p b c.echo) s
              db rest opened now w (from_frame-into_frame x (ping c) (ping_frame c) refl tt)
              (apply-ping x t p b now c db) mode whole
        go (unnamed now name fs w text other) opened mode whole =
            plain-OrIo x t p b (unknown (record { command_name = x.to_lowercase name }))
              (array (cons (bulk name) fs)) (refusal (x.to_lowercase name)) tt s db rest opened now
              w (from_frame-unknown x name fs text other)
              (apply-unknown x t p b now (record { command_name = x.to_lowercase name }) db) mode
              whole

  -- A client sends requests, each a `GET`, a `SET`, a `PUBLISH`, a `PING` or one with a name that is not
  -- known, on a connection whose task waits for a request; it may send them all before it reads a
  -- reply. No other task changes the database meanwhile, nothing has panicked under the lock and the
  -- database is not shut down. Then, in as many turns, the task writes exactly one reply to each, in
  -- their order, and flushes them: what the plain map of the database's promise gives for all calls
  -- before, the bytes of a `PING` or "PONG", or the error with the unknown name in lower case. It leaves
  -- the bytes behind the requests to read, waits for the next one, and the database is that map; or the
  -- stream fails. For a `SET`, the expiry is the one on the wire, in whole milliseconds, and the
  -- platform holds its instant.
  pub turns-AreServed :
      (rs : List (Request x)) (s : Session S M) (db : Shared T) (rest : Bytes)
      → IsOpen db
      → s.mode ≡ reading
      → t.flushed s.dst.stream ≡ t.written s.dst.stream
      → s.dst.read_buf ++ t.arriving s.dst.stream ≡ frames_of rs ++ rest
      → OrIoWith x t b
          (AreServed x t p b
            (all_promised rs (view x b db)).0
            rest
            (all_promised rs (view x b db)).1
            s)
          (turns x t p b (map (λ r. arrives (instant_of r)) rs) s db)
  unfolding turns
  turns-AreServed [] s db rest ready mode synced whole = returned s (record {
    goes_on_reading = mode;
    replies_written = sym (append-nil (t.written s.dst.stream));
    replies_flushed = synced;
    left = whole;
    called = refl;
    still_open = ready;
  })
  turns-AreServed (r ∷ rs) s db rest ready mode synced whole =
      OrIo-and_then x t b
        (AreServed x t p b (all_promised (r ∷ rs) (view x b db)).0 rest
          (all_promised (r ∷ rs) (view x b db)).1 s)
        (turns x t p b (map (λ q. arrives (instant_of q)) rs))
        (turn-AreServed r s db (frames_of rs ++ rest) ready mode
          (whole ∙ append_assoc (encode (frame_of r)) (frames_of rs) rest))
        λ s₁ h.
          OrIo-weaken
            (turns-AreServed rs s₁ _ rest h.still_open h.goes_on_reading h.replies_flushed h.left)
            λ s₂ k. AreServed-next r rs (view x b db) (frames_of rs ++ rest) rest s s₁ s₂ _ _ h k
