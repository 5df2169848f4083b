-- ===== src/Server/Session/Subscribing.antt =====
-- The round of `process` (redis-lib/src/server.rs) that enters `Subscribe::apply`
-- (redis-lib/src/cmd/subscribe.rs).
use redis_demo.Base.{
  ℕ, ◌+◌, ◌≡◌, refl, sym, ◌∙◌, ap, subst, Bool, true, false, ◌||◌, ◌&&◌, not, Bytes, List, [], ◌∷◌,
  ◌++◌, append_assoc, append-nil, Option, none, some, ◌is◌, Outcome, ok, arith,
}
use redis_demo.Std.BTreeSet.{Instant}
use redis_demo.Env.{Env}
use redis_demo.Frame.Wire.{encode, IsWire}
use redis_demo.Failure.{Failure, returned, OrIo-bind, OrIo-weaken}
use redis_demo.Command.{Subscribe, subscribe}
use redis_demo.Command.IntoFrame.{subscribe_frame}
use redis_demo.Command.RoundTrip.{IsRequest, from_frame-into_frame}
use redis_demo.Db
use redis_demo.Db.{Shared, Broadcast}
use redis_demo.Db.PubSub.{listeners}
use redis_demo.Connection.{Stream, Connection}
use redis_demo.Connection.Write.Sends.{Sent}
use redis_demo.Connection.Read.Reads.{read_frame-OrIo}
use redis_demo.Subscriptions.{
  and_then, StreamMap, holds, drop_stream, make_subscribe_frame, subscribe_to_channel,
}
use redis_demo.Subscriptions.Subscribes.{bit, IsJoining, subscribe-IsJoining, track-OrIo}
use redis_demo.Client.Subscriber.Confirms.{replies_of}
use redis_demo.Server.Session.{
  Session, Mode, reading, subscribed, arrives, subscribe_all, enter, apply, serve, turn, turn_in,
}
use redis_demo.Server.Session.Answers.{OrIoWith, OrIo-and_then}

module _ {T R M : Type 0} (p : StreamMap R M) (b : Broadcast T R) where
  abbrev pub numbered : Bytes → M → Option R → (M → List (Bytes × ℕ)) → List (Bytes × ℕ)
  numbered k m none rest = []
  numbered k m (some rx) rest = (k, p.len (p.insert m k rx)) ∷ rest (p.insert m k rx)

  -- The database once the channel is subscribed to and its old stream is dropped.
  abbrev pub joined : Bytes → M → Shared T → Shared T
  joined k m db = drop_stream p b k m (Db.subscribe b k db).1

  -- The channels with the number of the subscriptions once each is added.
  abbrev pub numbers : List Bytes → M → Shared T → List (Bytes × ℕ)
  numbers [] m db = []
  numbers (k ∷ ks) m db = numbered k m (Db.subscribe b k db).0 λ m'. numbers ks m' (joined k m db)

module _ {S T R M : Type 0} (x : Env) (t : Stream S) (p : StreamMap R M) (b : Broadcast T R) where
  -- All the channels are subscribed to and acknowledged, in their order; each that was not among the
  -- subscriptions is counted once more, however often it is named.
  pub record AreSubscribed (ks : List Bytes) (m : M) (dst : Connection S) (db : Shared T) (m' : M)
      (dst' : Connection S) (db' : Shared T) : Type 0 where
    pub tracked : (j : Bytes) → holds j (p.keys m') ≡ (holds j ks || holds j (p.keys m))
    pub acknowledged :
        t.written dst'.stream
        ≡ t.written dst.stream ++ replies_of make_subscribe_frame (numbers p b ks m db)
    pub counted :
        (j : Bytes)
        → listeners b j db' ≡ listeners b j db + bit (holds j ks && not (holds j (p.keys m)))
    pub sound : db'.poisoned ≡ false

  or_assoc : (a c d : Bool) → (c || (a || d)) ≡ ((a || c) || d)
  or_assoc true true d = refl
  or_assoc true false d = refl
  or_assoc false c d = refl

  fresh_bit : (a : Bool) (n : ℕ) → n + bit (a && true) ≡ n + bit a
  fresh_bit true n = refl
  fresh_bit false n = refl

  count_all :
      (a c d e : Bool) (n l l' : ℕ)
      → l ≡ n + bit (a && not d)
      → l' ≡ l + bit (c && not e)
      → e ≡ (a || d)
      → l' ≡ n + bit ((a || c) && not d)
  count_all true c true e n l l' h h' same = ground arith
  count_all true c false e n l l' h h' same = ground arith
  count_all false c d e n l l' h h' same = ground arith

  module _ (k : Bytes) (ks : List Bytes) (m : M) (dst : Connection S) (db : Shared T) where
    AreSubscribed-next :
        (m₁ m₂ : M) (d₁ d₂ : Connection S) (db₂ : Shared T)
        (h : IsJoining p b k m db (Db.subscribe b k db))
        → m₁ ≡ p.insert m k h.rx
        → Sent t dst (make_subscribe_frame k (p.len (p.insert m k h.rx))) d₁
        → AreSubscribed ks m₁ d₁ (joined p b k m db) m₂ d₂ db₂
        → AreSubscribed (k ∷ ks) m dst db m₂ d₂ db₂
    AreSubscribed-next m₁ m₂ d₁ d₂ db₂ h same sent g = record {
      tracked = λ j.
          g.tracked j
          ∙ ap (λ q. holds j ks || q) (added j)
          ∙ or_assoc (k is j) (holds j ks) (holds j (p.keys m));
      acknowledged =
          g.acknowledged
          ∙ ap (λ w. w ++ replies_of make_subscribe_frame (numbers p b ks m₁ (joined p b k m db)))
              sent.written_frame
          ∙ append_assoc (t.written dst.stream) _ _
          ∙ ap
              (λ q.
                t.written dst.stream
                ++ (encode (make_subscribe_frame k (p.len (p.insert m k h.rx)))
                    ++ replies_of make_subscribe_frame (numbers p b ks q (joined p b k m db))))
              same
          ∙ ap
              (λ o.
                t.written dst.stream
                ++ replies_of make_subscribe_frame
                    (numbered p b k m o λ q. numbers p b ks q (joined p b k m db)))
              (sym h.joins);
      counted = λ j.
          count_all (k is j) (holds j ks) (holds j (p.keys m)) (holds j (p.keys m₁)) _ _ _
            (h.counted j) (g.counted j) (added j);
      sound = g.sound;
    }
      where
        added : (j : Bytes) → holds j (p.keys m₁) ≡ (k is j || holds j (p.keys m))
        added j = ap (λ q. holds j (p.keys q)) same ∙ p.insert_lem m k h.rx j

  subscribe_all-OrIo :
      (ks : List Bytes) (m : M) (dst : Connection S) (db : Shared T)
      → db.poisoned ≡ false
      → OrIoWith x t b
          (λ (m', dst') db'. AreSubscribed ks m dst db m' dst' db')
          (subscribe_all x t p b ks m dst db)
  unfolding subscribe_all subscribe_to_channel
  subscribe_all-OrIo [] m dst db sound = returned _ (record {
    tracked = λ j. refl;
    acknowledged = sym (append-nil (t.written dst.stream));
    counted = λ j. omega arith;
    sound = sound;
  })
  subscribe_all-OrIo (k ∷ ks) m dst db sound =
      let h = subscribe-IsJoining p b k m db sound in
      OrIo-and_then x t b (λ (m', dst') db'. AreSubscribed (k ∷ ks) m dst db m' dst' db')
        (λ (m', dst') db'. subscribe_all x t p b ks m' dst' db')
        (track-OrIo t p b k m dst h.rx (Db.subscribe b k db).0 (Db.subscribe b k db).1 h.joins)
        λ (m₁, d₁) q.
          subst
            (λ d.
              OrIoWith x t b (λ (m', dst') db'. AreSubscribed (k ∷ ks) m dst db m' dst' db')
                (subscribe_all x t p b ks m₁ d₁ d))
            (sym q.dropped)
            (OrIo-weaken (subscribe_all-OrIo ks m₁ d₁ (joined p b k m db) h.sound) λ (m₂, d₂) g.
              AreSubscribed-next k ks m dst db m₁ m₂ d₁ d₂ _ h q.same q.acknowledged g)

  -- The task waits in `Subscribe::apply` for the channels.
  pub record IsSubscriber (ks : List Bytes) (dst : Connection S) (db : Shared T) (mode : Mode M)
      (dst' : Connection S) (db' : Shared T) : Type 0 where
    pub subscriptions : M
    pub waits : mode ≡ subscribed subscriptions
    pub all : AreSubscribed ks p.empty dst db subscriptions dst' db'
    pub counted_once : (j : Bytes) → listeners b j db' ≡ listeners b j db + bit (holds j ks)

  module _ (cmd : Subscribe) (s : Session S M) (db : Shared T) (sound : db.poisoned ≡ false) where
    abbrev Enters : Outcome Failure (Mode M × Connection S) × Shared T → Type 0
    Enters = OrIoWith x t b λ r db'. IsSubscriber cmd.channels s.dst db r.0 r.1 db'

    -- The connection `c` has read the request.
    enter-IsSubscriber :
        (c : Connection S)
        → t.written c.stream ≡ t.written s.dst.stream
        → Enters (enter x t p b cmd.channels p.empty c db)
    enter-IsSubscriber c quiet =
        OrIo-and_then x t b (λ r db'. IsSubscriber cmd.channels s.dst db r.0 r.1 db')
          (λ (m, dst') db'. (ok (subscribed m, dst'), db'))
          (subscribe_all-OrIo cmd.channels p.empty c db sound)
          λ (m, dst') h. returned _ (record {
            subscriptions = m;
            waits = refl;
            all = record {
              tracked = h.tracked;
              acknowledged =
                  h.acknowledged
                  ∙ ap
                      (λ w.
                        w ++ replies_of make_subscribe_frame (numbers p b cmd.channels p.empty db))
                      quiet;
              counted = h.counted;
              sound = h.sound;
            };
            counted_once = λ j.
                h.counted j
                ∙ ap (λ q. listeners b j db + bit (holds j cmd.channels && not (holds j q)))
                    p.empty_lem
                ∙ fresh_bit (holds j cmd.channels) _;
          })

    -- In a round of `process` that reads the frame that the client makes of a `SUBSCRIBE`, on a database
    -- that has not panicked: each channel is subscribed to, in order; the client is sent a confirmation
    -- for each, with the number of the subscriptions so far, and nothing else; each channel that is named
    -- has one receiver more, however often it is named, and no other channel has; and the task waits in `Subscribe::apply` with these channels; or
    -- the stream fails.
    pub turn-IsSubscriber :
        (now : Instant) (rest : Bytes)
        → IsWire x.max_capacity (subscribe_frame cmd)
        → IsRequest (subscribe cmd)
        → s.mode ≡ reading
        → s.dst.read_buf ++ t.arriving s.dst.stream ≡ encode (subscribe_frame cmd) ++ rest
        → OrIoWith x t b
            (λ s' db'. IsSubscriber cmd.channels s.dst db s'.mode s'.dst db')
            (turn x t p b (arrives now) s db)
    unfolding turn apply
    turn-IsSubscriber now rest w request mode whole =
        subst
          (λ m.
            OrIoWith x t b (λ s' db'. IsSubscriber cmd.channels s.dst db s'.mode s'.dst db')
              (turn_in x t p b m (arrives now) s db))
          (sym mode)
          (OrIo-bind
            (OrIo-and_then x t b (λ r db'. IsSubscriber cmd.channels s.dst db r.0 r.1 db')
              (serve x t p b now) (read_frame-OrIo x (subscribe_frame cmd) w t s.dst rest whole)
              λ (o, c) (same, left).
                subst (λ q. Enters (serve x t p b now (q, c) db)) (sym same)
                  (subst (λ q. Enters (and_then (q, db) λ k db'. apply x t p b now k c db'))
                    (sym
                      (from_frame-into_frame x (subscribe cmd) (subscribe_frame cmd) refl request))
                    (enter-IsSubscriber c left.same_written)))
            λ r h. returned _ h)
