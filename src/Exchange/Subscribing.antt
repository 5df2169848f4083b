-- ===== src/Exchange/Subscribing.antt =====
-- `Client::subscribe` (redis-lib/src/clients/client.rs) and the task of the server
-- (redis-lib/src/cmd/subscribe.rs) at the two ends of a connection.
use mathlib.Core.List.{append_cancel_left}
use redis_demo.Base.{
  ◌≤◌, ◌≡◌, refl, sym, ◌∙◌, ap, subst, false, ◌++◌, Bytes, List, [], ◌∷◌, All, ok,
}
use redis_demo.Std.BTreeSet.{Instant}
use redis_demo.Env.{Env}
use redis_demo.Frame.Wire.{encode, IsWire}
use redis_demo.Failure.{OrIo, OrIo-weaken}
use redis_demo.Command.{Subscribe, subscribe}
use redis_demo.Command.IntoFrame.{subscribe_frame}
use redis_demo.Command.RoundTrip.{IsRequest}
use redis_demo.Db.{Shared, Broadcast}
use redis_demo.Connection.{Stream, Connection, Breaks}
use redis_demo.Subscriptions.{StreamMap, make_subscribe_frame}
use redis_demo.Subscriptions.Subscribes.{subscribe-IsJoining}
use redis_demo.Server.Session.{Session, reading, arrives, turn}
use redis_demo.Server.Session.Subscribing.{
  numbered, numbers, joined, IsSubscriber, turn-IsSubscriber,
}
use redis_demo.Client.Subscriber.{into_subscriber}
use redis_demo.Client.Subscriber.Confirms.{IsReply, replies_of, named, into_subscriber-OrIo}
use redis_demo.Exchange.{IsJoined, OrIo-ok}

named-numbers :
    {T R M : Type 0} (p : StreamMap R M) (b : Broadcast T R) (ks : List Bytes) (m : M)
    (db : Shared T)
    → db.poisoned ≡ false
    → named (numbers p b ks m db) ≡ ks
named-numbers p b [] m db sound = refl
named-numbers p b (k ∷ ks) m db sound =
    let h = subscribe-IsJoining p b k m db sound in
    ap (λ o. named (numbered p b k m o λ q. numbers p b ks q (joined p b k m db))) h.joins
    ∙ ap (λ l. k ∷ l) (named-numbers p b ks (p.insert m k h.rx) (joined p b k m db) h.sound)

module _ {S T R M : Type 0} (x : Env) (t : Stream S) (b : Broadcast T R) (p : StreamMap R M) where
  module _ (cmd : Subscribe) (now : Instant) (s s' : Session S M) (db db' : Shared T)
      (c : Connection S) (rest rest₂ : Bytes) where
    -- The frame that the client makes of a `SUBSCRIBE` arrives at a task of the server, on a database that
    -- has not panicked, and the turn of the task returns. If what it wrote arrives at the client, then
    -- `Client::subscribe` returns a subscriber of exactly these channels, unless its stream fails; the
    -- task waits in `Subscribe::apply` for these channels and no other, each of them has one receiver
    -- more, however often it is named, and no other channel has. The names and the numbers of the confirmations fit a frame.
    pub into_subscriber-IsSubscriber :
        3 ≤ x.max_capacity
        → IsWire x.max_capacity (subscribe_frame cmd)
        → IsRequest (subscribe cmd)
        → All IsReply (numbers p b cmd.channels p.empty db)
        → db.poisoned ≡ false
        → s.mode ≡ reading
        → s.dst.read_buf ++ t.arriving s.dst.stream ≡ encode (subscribe_frame cmd) ++ rest
        → turn x t p b (arrives now) s db ≡ (ok s', db')
        → IsJoined x t b p s s' c rest₂
        → OrIo
            (Breaks t)
            (λ r. r.subscribed_channels ≡ cmd.channels)
            (into_subscriber x t cmd.channels c)
          × IsSubscriber x t p b cmd.channels s.dst db s'.mode s'.dst db'
    into_subscriber-IsSubscriber room w request fits sound waits input turned
          (sent, (wrote, comes)) =
        let rs = numbers p b cmd.channels p.empty db in
        let channels : named rs ≡ cmd.channels = named-numbers p b cmd.channels p.empty db sound in
        let served : IsSubscriber x t p b cmd.channels s.dst db s'.mode s'.dst db' =
          subst (λ d. IsSubscriber x t p b cmd.channels s.dst db s'.mode s'.dst d)
            (ap (λ r. r.1) turned)
            (OrIo-ok (turn-IsSubscriber x t p b cmd s db sound now rest w request waits input)
              (ap (λ r. r.0) turned)) in
        let replies : c.read_buf ++ t.arriving c.stream
            ≡ replies_of make_subscribe_frame rs ++ rest₂ =
          comes
          ∙ ap (λ q. q ++ rest₂)
              (append_cancel_left (t.written s.dst.stream) _ _
                (sym wrote ∙ served.all.acknowledged)) in
        (
          subst (λ l. OrIo (Breaks t) (λ r. r.subscribed_channels ≡ l) (into_subscriber x t l c))
              channels
              (OrIo-weaken (into_subscriber-OrIo x t room rs rest₂ c fits replies) λ r h. h.0),
          served,
        )
