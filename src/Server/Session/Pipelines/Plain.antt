-- ===== src/Server/Session/Pipelines/Plain.antt =====
-- The turn of `process` (redis-lib/src/server.rs) on a command that makes no call of the database.
use redis_demo.Base.{◌≡◌, refl, sym, ◌∙◌, ap, subst, ◌++◌, Bytes, Option, none, some, ok}
use redis_demo.Std.BTreeSet.{Instant}
use redis_demo.Env.{Env}
use redis_demo.Frame.{Frame}
use redis_demo.Frame.Wire.{encode, IsWire}
use redis_demo.Failure.{returned, OrIo-bind}
use redis_demo.Command.{Command, Ping, Unknown, ping, unknown}
use redis_demo.Db.{Shared, Broadcast}
use redis_demo.Db.Spec.{view}
use redis_demo.Db.Spec.Kept.{IsOpen}
use redis_demo.Connection.{Stream, Connection}
use redis_demo.Connection.Write.{write_frame}
use redis_demo.Command.Decode.{from_frame}
use redis_demo.Connection.Write.Sends.{IsFlat, write_frame-OrIo}
use redis_demo.Connection.Read.Reads.{read_frame-OrIo}
use redis_demo.Subscriptions.{StreamMap}
use redis_demo.Apply.{pong, ping_apply, unknown_apply}
use redis_demo.Server.Session.{
  goes_on, Session, Mode, with_mode, reading, arrives, and_then, apply, serve, turn, turn_in,
}
use redis_demo.Server.Session.Answers.{OrIoWith, OrIo-and_then}
use redis_demo.Server.Session.Pipelines.{refusal, AreServed}

module _ {S T R M : Type 0} (x : Env) (t : Stream S) (p : StreamMap R M) (b : Broadcast T R) where
  pub pong-IsFlat : (echo : Option Bytes) → IsFlat (pong echo)
  pong-IsFlat none = tt
  pong-IsFlat (some bytes) = tt

  -- A command that makes no call of the database: the turn that reads its frame `f` writes `reply`.
  module _ (cmd : Command) (f reply : Frame) (flat : IsFlat reply) (s : Session S M) (db : Shared T)
      (rest : Bytes) (ready : IsOpen db) where
    abbrev Answers : Mode M × Connection S → Shared T → Type 0
    Answers r =
        AreServed x t p b (encode reply) rest (view x b db) s (with_mode x t p b s.shutdown r)

    -- The connection `d` has read the request.
    write-OrIo :
        (d : Connection S)
        → d.read_buf ++ t.arriving d.stream ≡ rest
        → t.written d.stream ≡ t.written s.dst.stream
        → OrIoWith x t b Answers (goes_on x t p b (write_frame t d reply, db))
    write-OrIo d left same_written = OrIo-bind (write_frame-OrIo t d reply flat) λ d' sent.
        returned (reading, d')
          (record {
            goes_on_reading = refl;
            replies_written = sent.written_frame ∙ ap (λ w. w ++ encode reply) same_written;
            replies_flushed = sent.all_flushed;
            left =
                ap (λ q. q ++ t.arriving d'.stream) sent.same_buffer
                ∙ ap (λ q. d.read_buf ++ q) sent.same_input
                ∙ left;
            called = refl;
            still_open = ready;
          })

    pub plain-OrIo :
        (now : Instant)
        → IsWire x.max_capacity f
        → from_frame x f ≡ ok cmd
        → ((d : Connection S)
            → apply x t p b now cmd d db ≡ goes_on x t p b (write_frame t d reply, db))
        → s.mode ≡ reading
        → s.dst.read_buf ++ t.arriving s.dst.stream ≡ encode f ++ rest
        → OrIoWith x t b
            (AreServed x t p b (encode reply) rest (view x b db) s)
            (turn x t p b (arrives now) s db)
    unfolding turn
    plain-OrIo now w decoded applied mode whole =
        subst
          (λ m.
            OrIoWith x t b (AreServed x t p b (encode reply) rest (view x b db) s)
              (turn_in x t p b m (arrives now) s db))
          (sym mode)
          (OrIo-bind
            (OrIo-and_then x t b Answers (serve x t p b now)
              (read_frame-OrIo x f w t s.dst rest whole)
              λ (o, d) (same, left).
                subst (λ q. OrIoWith x t b Answers (serve x t p b now (q, d) db)) (sym same)
                  (subst
                    (λ q.
                      OrIoWith x t b Answers (and_then (q, db) λ k db'. apply x t p b now k d db'))
                    (sym decoded)
                    (subst (OrIoWith x t b Answers) (sym (applied d))
                      (write-OrIo d left.left left.same_written))))
            λ r h. returned _ h)

  pub apply-ping :
      (now : Instant) (c : Ping) (db : Shared T) (d : Connection S)
      → apply x t p b now (ping c) d db ≡ goes_on x t p b (write_frame t d (pong c.echo), db)
  unfolding apply ping_apply
  apply-ping now c db d = refl

  pub apply-unknown :
      (now : Instant) (c : Unknown) (db : Shared T) (d : Connection S)
      → apply x t p b now (unknown c) d db
        ≡ goes_on x t p b (write_frame t d (refusal c.command_name), db)
  unfolding apply unknown_apply
  apply-unknown now c db d = refl
