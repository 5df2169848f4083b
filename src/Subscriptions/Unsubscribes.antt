-- ===== src/Subscriptions/Unsubscribes.antt =====
-- The replies of `handle_command` to an `UNSUBSCRIBE` (redis-lib/src/cmd/subscribe.rs), and what is
-- left of the subscriptions.
use redis_demo.Base.{
  ℕ, ◌≡◌, refl, ap, sym, ◌∙◌, Bool, true, false, ◌is◌, ◌-◌, ◌||◌, not, ◌&&◌, Bytes, List, [], ◌∷◌,
  ◌++◌, append_assoc, append-nil, ok, err, panic, out_of_fuel, Outcome, arith,
}
use redis_demo.Env.{Env}
use redis_demo.Frame.{Frame}
use redis_demo.Frame.Wire.{encode}
use redis_demo.Failure.{Failure, OrIo, returned, broken, OrIo-weaken}
use redis_demo.Db.{Shared, Broadcast}
use redis_demo.Command.{Unsubscribe, unsubscribe}
use redis_demo.Command.Decode.{from_frame}
use redis_demo.Connection.{Stream, Connection, Breaks}
use redis_demo.Connection.Write.{write_frame}
use redis_demo.Subscriptions.Subscribes.{bit, drop_stream-listeners, guarded-OrIo}
use redis_demo.Db.PubSub.{listeners}
use redis_demo.Connection.Write.Sends.{Sent, IsFlat, write_frame-OrIo}
use redis_demo.Subscriptions.{
  and_then, guarded, drop_stream, StreamMap, holds, make_unsubscribe_frame, unsubscribe_each,
  chosen, handle, handle_command,
}

pub make_unsubscribe_frame-IsFlat : (k : Bytes) (n : ℕ) → IsFlat (make_unsubscribe_frame k n)
unfolding make_unsubscribe_frame
make_unsubscribe_frame-IsFlat k n = (tt, (tt, (tt, tt)))

and_then-OrIo :
    {T X A B : Type 0} {P : A → Shared T → Type 0} (Q : B → Shared T → Type 0)
    (r : Outcome Failure A × Shared T) (f : A → Shared T → Outcome Failure B × Shared T)
    → OrIo X (λ a. P a r.1) r.0
    → ((a : A) (db : Shared T) → P a db → OrIo X (λ c. Q c (f a db).1) (f a db).0)
    → OrIo X (λ c. Q c (and_then r f).1) (and_then r f).0
and_then-OrIo Q (ok _, db) f (returned a h) k = k a db h
and_then-OrIo Q (err _, db) f (broken h) k = broken h
and_then-OrIo Q (panic, db) f h k = elim h [ ]
and_then-OrIo Q (out_of_fuel, db) f h k = elim h [ ]

drops_once :
    (a c d e : Bool) (n l l' : ℕ)
    → l ≡ n - bit (a && d)
    → l' ≡ l - bit (c && e)
    → e ≡ (not a && d)
    → l' ≡ n - bit ((a || c) && d)
drops_once true c true e n l l' h h' same = ground arith
drops_once true c false e n l l' h h' same = ground arith
drops_once false c d e n l l' h h' same = ground arith

module _ {S R M : Type 0} (t : Stream S) (p : StreamMap R M) where
  -- One reply for each channel, with the number of the subscriptions that are left.
  abbrev pub replies : List Bytes → M → Bytes
  replies [] m = []
  replies (k ∷ ks) m =
      encode (make_unsubscribe_frame k (p.len (p.remove m k))) ++ replies ks (p.remove m k)

  module _ {T : Type 0} (b : Broadcast T R) where
    -- `m'` is `m` without the channels, each has its reply, and the receivers of those that were in `m`
    -- are dropped.
    pub record Unsubscribed (ks : List Bytes) (m : M) (dst : Connection S) (db : Shared T) (m' : M)
        (dst' : Connection S) (db' : Shared T) : Type 0 where
      pub kept : (j : Bytes) → holds j (p.keys m') ≡ (not (holds j ks) && holds j (p.keys m))
      pub replied : t.written dst'.stream ≡ t.written dst.stream ++ replies ks m
      pub dropped :
          (j : Bytes)
          → listeners b j db' ≡ listeners b j db - bit (holds j ks && holds j (p.keys m))

    abbrev AreUnsubscribed :
        List Bytes → M → Connection S → Shared T → M × Connection S → Shared T → Type 0
    AreUnsubscribed ks m dst db (m', dst') db' = Unsubscribed ks m dst db m' dst' db'

    Unsubscribed-next :
        (k : Bytes) (ks : List Bytes) (m m' : M) (dst dst₁ dst' : Connection S)
        (db db₁ db' : Shared T)
        → Sent t dst (make_unsubscribe_frame k (p.len (p.remove m k))) dst₁
        → db₁ ≡ drop_stream p b k m db
        → Unsubscribed ks (p.remove m k) dst₁ db₁ m' dst' db'
        → Unsubscribed (k ∷ ks) m dst db m' dst' db'
    Unsubscribed-next k ks m m' dst dst₁ dst' db db₁ db' sent drops u = record {
      kept = λ j. u.kept j ∙ ap (λ q. not (holds j ks) && q) (p.remove_lem m k j) ∙ ground arith;
      replied =
          u.replied
          ∙ ap (λ w. w ++ replies ks (p.remove m k)) sent.written_frame
          ∙ append_assoc (t.written dst.stream) _ _;
      dropped = λ j.
          drops_once (k is j) (holds j ks) (holds j (p.keys m)) (holds j (p.keys (p.remove m k))) _
            _ _ (ap (listeners b j) drops ∙ drop_stream-listeners p b k j m db) (u.dropped j)
            (p.remove_lem m k j);
    }

    each-OrIo :
        (ks : List Bytes) (m : M) (dst : Connection S) (db : Shared T)
        → OrIo
            (Breaks t)
            (λ r. AreUnsubscribed ks m dst db r (unsubscribe_each t p b ks m dst db).1)
            (unsubscribe_each t p b ks m dst db).0
    unfolding unsubscribe_each
    each-OrIo [] m dst db =
        returned (m, dst)
          (record {
            kept = λ j. refl;
            replied = sym (append-nil (t.written dst.stream));
            dropped = λ j. omega arith;
          })
    each-OrIo (k ∷ ks) m dst db =
        let frame = make_unsubscribe_frame k (p.len (p.remove m k)) in
        let db' = drop_stream p b k m db in
        and_then-OrIo {P = λ dst₁ db₁. Sent t dst frame dst₁ × (db₁ ≡ db')}
          (AreUnsubscribed (k ∷ ks) m dst db)
          (guarded p b (p.remove m k) (write_frame t dst frame) db') _
          (guarded-OrIo t p b (p.remove m k) db' _
            (write_frame-OrIo t dst frame (make_unsubscribe_frame-IsFlat k (p.len (p.remove m k)))))
          λ dst₁ db₁ (sent, drops).
            OrIo-weaken (each-OrIo ks (p.remove m k) dst₁ db₁)
              λ r u. Unsubscribed-next k ks m r.0 dst dst₁ r.1 db db₁ _ sent drops u

    -- On a frame that decodes to an `UNSUBSCRIBE`, `handle_command` removes the named channels, or all
    -- of them if none is named, from the subscriptions and no others, writes for each of them a reply
    -- with the number of the subscriptions left at that point, and leaves `subscribe_to` as it is; the
    -- database counts one receiver less, if it counts any, on each channel that was removed, and on any
    -- other as many as before; or the stream fails.
    pub handle_command-unsubscribe :
        (x : Env) (f : Frame) (to : List Bytes) (m : M) (dst : Connection S) (c : Unsubscribe)
        (db : Shared T)
        → from_frame x f ≡ ok (unsubscribe c)
        → OrIo
            (Breaks t)
            (λ (to', m', dst').
              (to' ≡ to)
              × Unsubscribed
                  (chosen t p c.channels m)
                  m
                  dst
                  db
                  m'
                  dst'
                  (handle_command t p b x f to m dst db).1)
            (handle_command t p b x f to m dst db).0
    unfolding handle_command handle
    handle_command-unsubscribe x f to m dst c db e = rw e (
        and_then-OrIo {P = AreUnsubscribed (chosen t p c.channels m) m dst db}
          (λ (to', m', dst') db'.
            (to' ≡ to) × Unsubscribed (chosen t p c.channels m) m dst db m' dst' db')
          (unsubscribe_each t p b (chosen t p c.channels m) m dst db) _
          (each-OrIo (chosen t p c.channels m) m dst db)
          λ (m', dst') db' u. returned (to, m', dst') (refl, u))
