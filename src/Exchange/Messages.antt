-- ===== src/Exchange/Messages.antt =====
-- A message that a task of the server (redis-lib/src/cmd/subscribe.rs) forwards, and the subscriber
-- (redis-lib/src/clients/client.rs) at the other end.
use mathlib.Core.List.{append_cancel_left}
use redis_demo.Base.{
  ◌+◌, ◌^◌, ◌<◌, ◌≤◌, ◌≡◌, refl, sym, subst, ◌∙◌, ap, true, ◌++◌, Bytes, length, some, Outcome, ok,
  ◌>>=◌,
}
use redis_demo.Env.{Env}
use redis_demo.Failure.{Failure, OrIo, returned, OrIo-bind, OrIo-weaken}
use redis_demo.Db.{Shared, Broadcast}
use redis_demo.Connection.{Stream, Connection, Breaks}
use redis_demo.Connection.Write.{write_frame}
use redis_demo.Connection.Write.Sends.{Sent, write_frame-OrIo}
use redis_demo.Subscriptions.{StreamMap, holds, make_message_frame}
use redis_demo.Server.Session.Speaks.{make_message_frame-IsFlat}
use redis_demo.Server.Session.{Session, Mode, subscribed, delivers, turn, turn_in}
use redis_demo.Client.Subscriber.{Subscriber, next_message}
use redis_demo.Client.Subscriber.Receives.{shown, next_message-OrIo}
use redis_demo.Exchange.{IsJoined, OrIo-ok}

module _ {S T R M : Type 0} (x : Env) (t : Stream S) (b : Broadcast T R) (p : StreamMap R M) where
  module _ (k msg : Bytes) (m : M) (s s' : Session S M) (db db' : Shared T) where
    abbrev IsForwarded : Outcome Failure (Session S M) × Shared T → Type 0
    IsForwarded r =
        OrIo (Breaks t)
          (λ q. (q.mode ≡ subscribed m) × Sent t s.dst (make_message_frame k msg) q.dst) r.0

    writes :
        OrIo
          (Breaks t)
          (λ (q : Mode M × Connection S).
            (q.0 ≡ subscribed m) × Sent t s.dst (make_message_frame k msg) q.1)
          (do dst ← write_frame t s.dst (make_message_frame k msg); ok (subscribed m, dst))
    writes =
        OrIo-bind (write_frame-OrIo t s.dst _ (make_message_frame-IsFlat k msg))
          λ dst h. returned (subscribed m, dst) (refl, h)

    forwards :
        s.mode ≡ subscribed m
        → holds k (p.keys m) ≡ true
        → turn x t p b (delivers k msg) s db ≡ (ok s', db')
        → (s'.mode ≡ subscribed m) × Sent t s.dst (make_message_frame k msg) s'.dst
    unfolding turn
    forwards mode listens turned =
        OrIo-ok
          (subst (λ q. IsForwarded (turn_in x t p b q (delivers k msg) s db)) (sym mode)
            (rw listens (OrIo-bind writes λ r h. returned _ h)))
          (ap (λ r. r.0) turned)

    -- A task that waits in `Subscribe::apply` gets a message on a channel to which it is subscribed, and
    -- the turn returns: the task waits there again, with the same subscriptions. If what it wrote
    -- arrives at the subscriber, then `next_message` returns the channel and the content, each as it is
    -- if it is UTF-8, else in the text of its `Debug`, unless the subscriber's stream fails.
    pub next_message_after_delivery-OrIo :
        (subscriber : Subscriber S) (rest : Bytes)
        → 3 ≤ x.max_capacity
        → length k + 2 < 2 ^ 64
        → length msg + 2 < 2 ^ 64
        → s.mode ≡ subscribed m
        → holds k (p.keys m) ≡ true
        → turn x t p b (delivers k msg) s db ≡ (ok s', db')
        → IsJoined x t b p s s' subscriber.client rest
        → (s'.mode ≡ subscribed m)
          × OrIo
              (Breaks t)
              (λ r. r.0 ≡ some (record { channel = shown x k; content = shown x msg }))
              (next_message x t subscriber)
    next_message_after_delivery-OrIo subscriber rest room short small mode listens turned
          (sent, (wrote, comes)) =
        let (same, h) = forwards mode listens turned in
        (
          same,
          OrIo-weaken
              (next_message-OrIo x t room k msg rest subscriber short small (
                comes
                ∙ ap (λ q. q ++ rest)
                    (append_cancel_left (t.written s.dst.stream) _ _
                      (sym wrote ∙ h.written_frame))))
              λ r got. got.0,
        )
