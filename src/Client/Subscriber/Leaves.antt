-- ===== src/Client/Subscriber/Leaves.antt =====
-- `Subscriber::unsubscribe` (redis-lib/src/clients/client.rs) against the replies that
-- `handle_command` (redis-lib/src/cmd/subscribe.rs) writes.
use redis_demo.Base.{
  ℕ, ◌-◌, ◌+◌, ◌≤◌, ◌≡◌, refl, ◌∙◌, ap, true, false, not, ◌&&◌, Bytes, List, [], ◌∷◌, ◌++◌,
  append_assoc, is_iff, ◌is◌, ◌==◌, All, length, ok, arith,
}
use redis_demo.Env.{Env}
use redis_demo.Frame.{bulk}
use redis_demo.Frame.Wire.{encode, IsWire}
use redis_demo.Failure.{OrIo, returned, OrIo-bind, OrIo-weaken}
use redis_demo.Command.IntoFrame.{unsubscribe_frame}
use redis_demo.Command.Flat.{unsubscribe_frame-IsFlat}
use redis_demo.Connection.{Stream, Connection, Breaks}
use redis_demo.Connection.Write.Sends.{write_frame-OrIo}
use redis_demo.Subscriptions.{make_unsubscribe_frame, holds}
use redis_demo.Client.Requests.{read_response-OrIo}
use redis_demo.Client.Subscriber.{Subscriber, retain, dropped, drop_each, how_many, unsubscribe}
use redis_demo.Client.Subscriber.Confirms.{
  IsReply, replies_of, named, IsRead, IsRead-here, IsRead-after, IsAsked, IsAsked-read,
}

-- Each channel is subscribed once when its turn comes.
abbrev pub IsOnce : List (Bytes × ℕ) → List Bytes → Type 0
IsOnce [] subscribed = Unit {0}
IsOnce ((k, n) ∷ rs) subscribed =
    (length (retain (bulk k) subscribed) + 1 ≡ length subscribed)
    × IsOnce rs (retain (bulk k) subscribed)

make_unsubscribe_frame-IsWire :
    (most : ℕ) (r : Bytes × ℕ) → 3 ≤ most → IsReply r → IsWire most (make_unsubscribe_frame r.0 r.1)
unfolding make_unsubscribe_frame
make_unsubscribe_frame-IsWire most (k, n) room (short, small) =
    (room, omega arith, (omega arith, (short, (small, tt))))

dropped-once :
    (k : Bytes) (n : ℕ) (cs : List Bytes)
    → length (retain (bulk k) cs) + 1 ≡ length cs
    → dropped cs (make_unsubscribe_frame k n) ≡ ok (retain (bulk k) cs)
unfolding make_unsubscribe_frame
dropped-once k n cs once = rw (
  some_left (length cs) (length (retain (bulk k) cs)) once,
  one_less (length cs) (length (retain (bulk k) cs)) once,
)
  where
    some_left : (a b : ℕ) → b + 1 ≡ a → (a == 0) ≡ false
    some_left a b e = ground arith

    one_less : (a b : ℕ) → b + 1 ≡ a → (b == a - 1) ≡ true
    one_less a b e = ground arith

holds-retain :
    (k j : Bytes) (cs : List Bytes) → holds j (retain (bulk k) cs) ≡ (not (k is j) && holds j cs)
holds-retain k j [] = ground arith
holds-retain k j (c ∷ cs) = ground (arith, is_iff k j, is_iff k c, is_iff c j, holds-retain k j cs)

-- Exactly the channels that were named are gone.
pub record IsLeft (rs : List (Bytes × ℕ)) (subscribed left : List Bytes) : Type 0 where
  pub kept : (j : Bytes) → holds j left ≡ (not (holds j (named rs)) && holds j subscribed)
  pub fewer : length left + length rs ≡ length subscribed

module _ {S : Type 0} (x : Env) (t : Stream S) (room : 3 ≤ x.max_capacity) where
  drop_each-OrIo :
      (rs : List (Bytes × ℕ)) (subscribed : List Bytes) (rest : Bytes) (c : Connection S)
      → All IsReply rs
      → IsOnce rs subscribed
      → c.read_buf ++ t.arriving c.stream ≡ replies_of make_unsubscribe_frame rs ++ rest
      → OrIo
          (Breaks t)
          (λ s. IsLeft rs subscribed s.subscribed_channels × IsRead t rest c s.client)
          (drop_each x t (length rs) subscribed c)
  unfolding drop_each make_unsubscribe_frame
  drop_each-OrIo [] subscribed rest c fit once whole =
      returned _ (record { kept = λ j. refl; fewer = omega arith }, IsRead-here t rest c whole)
  drop_each-OrIo ((k, n) ∷ rs) subscribed rest c (fit, fits) (one, once) whole =
      let w = make_unsubscribe_frame-IsWire x.max_capacity (k, n) room fit in
      OrIo-bind
        (read_response-OrIo x t c (replies_of make_unsubscribe_frame rs ++ rest)
          (make_unsubscribe_frame k n) w (λ c'. refl)
          (whole ∙ append_assoc (encode (make_unsubscribe_frame k n)) _ rest))
        λ (f, c') (same, left).
          rw (same, dropped-once k n subscribed one)
            (OrIo-weaken
              (drop_each-OrIo rs (retain (bulk k) subscribed) rest c' fits once left.left)
              λ s (l, r). (
                record {
                  kept = λ j.
                      l.kept j
                      ∙ ap (λ b. not (holds j (named rs)) && b) (holds-retain k j subscribed)
                      ∙ ground arith;
                  fewer = let fewer = l.fewer in omega arith;
                },
                IsRead-after t x _ w _ rest c c' s.client left r,
              ))

  -- If the replies that arrive are those of `handle_command` for as many channels as the call waits
  -- for, each of which the subscriber had once, then `Subscriber::unsubscribe` returns, unless the
  -- stream fails: exactly these channels are gone from the subscribed ones, the request was sent, and
  -- nothing behind the replies was read.
  pub unsubscribe-OrIo :
      (channels : List Bytes) (rs : List (Bytes × ℕ)) (rest : Bytes) (s : Subscriber S)
      → All IsReply rs
      → IsOnce rs s.subscribed_channels
      → length rs ≡ how_many channels s.subscribed_channels
      → s.client.read_buf ++ t.arriving s.client.stream
        ≡ replies_of make_unsubscribe_frame rs ++ rest
      → OrIo
          (Breaks t)
          (λ s'.
            IsLeft rs s.subscribed_channels s'.subscribed_channels
            × IsAsked t
                (unsubscribe_frame (record { channels = channels }))
                rest
                s.client
                s'.client)
          (unsubscribe x t channels s)
  unfolding unsubscribe
  unsubscribe-OrIo channels rs rest s fits once count whole =
      OrIo-bind (write_frame-OrIo t s.client _ (unsubscribe_frame-IsFlat channels)) λ c₁ sent.
        rw (← count) (
          OrIo-weaken
            (drop_each-OrIo rs s.subscribed_channels rest c₁ fits once (
              ap (λ b. b ++ t.arriving c₁.stream) sent.same_buffer
              ∙ ap (λ m. s.client.read_buf ++ m) sent.same_input
              ∙ whole))
            λ s' (l, r). (l, IsAsked-read t _ rest s.client c₁ s'.client sent r))
