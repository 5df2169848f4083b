-- ===== src/Client/Subscriber/Confirms.antt =====
-- `Client::subscribe` (redis-lib/src/clients/client.rs) against the confirmations that
-- `subscribe_to_channel` (redis-lib/src/cmd/subscribe.rs) writes.
use redis_demo.Base.{
  ℕ, ◌+◌, ◌^◌, ◌<◌, ◌≤◌, ◌≡◌, refl, sym, ◌∙◌, ap, Bytes, List, [], ◌∷◌, ◌++◌, append_assoc, is_refl,
  All, length, ok, arith,
}
use redis_demo.Env.{Env}
use redis_demo.Frame.{Frame}
use redis_demo.Frame.Wire.{encode, IsWire}
use redis_demo.Failure.{OrIo, returned, OrIo-bind, OrIo-weaken}
use redis_demo.Command.IntoFrame.{subscribe_frame}
use redis_demo.Command.Flat.{subscribe_frame-IsFlat}
use redis_demo.Connection.{Stream, Connection, Breaks}
use redis_demo.Connection.Write.Sends.{Sent, write_frame-OrIo}
use redis_demo.Connection.Read.Reads.{Left}
use redis_demo.Subscriptions.{make_subscribe_frame}
use redis_demo.Client.Requests.{read_response-OrIo}
use redis_demo.Client.Subscriber.{confirmed, confirm_each, do_subscribe, into_subscriber}

-- A name of a channel and a number that a reply to it can carry.
abbrev pub IsReply : Bytes × ℕ → Type 0
IsReply (k, n) = (length k + 2 < 2 ^ 64) × (n < 2 ^ 64)

-- The replies on the wire, one for each channel.
abbrev pub replies_of : (Bytes → ℕ → Frame) → List (Bytes × ℕ) → Bytes
replies_of reply [] = []
replies_of reply ((k, n) ∷ rs) = encode (reply k n) ++ replies_of reply rs

abbrev pub named : List (Bytes × ℕ) → List Bytes
named [] = []
named ((k, n) ∷ rs) = k ∷ named rs

module _ {S : Type 0} (t : Stream S) where
  -- `rest` is left to read on `c'`, which has written and flushed what `c` has.
  pub record IsRead (rest : Bytes) (c c' : Connection S) : Type 0 where
    pub left : c'.read_buf ++ t.arriving c'.stream ≡ rest
    pub same_written : t.written c'.stream ≡ t.written c.stream
    pub same_flushed : t.flushed c'.stream ≡ t.flushed c.stream

  pub IsRead-here :
      (rest : Bytes) (c : Connection S) → c.read_buf ++ t.arriving c.stream ≡ rest → IsRead rest c c
  IsRead-here rest c e = record { left = e; same_written = refl; same_flushed = refl }

  pub IsRead-after :
      (x : Env) (f : Frame) (w : IsWire x.max_capacity f) (rest' rest : Bytes)
      (c c' c'' : Connection S)
      → Left x f w t rest' c c'
      → IsRead rest c' c''
      → IsRead rest c c''
  IsRead-after x f w rest' rest c c' c'' l r = record {
    left = r.left;
    same_written = r.same_written ∙ l.same_written;
    same_flushed = r.same_flushed ∙ l.same_flushed;
  }

  -- The request is sent, and the replies to it are read.
  pub record IsAsked (request : Frame) (rest : Bytes) (c c' : Connection S) : Type 0 where
    pub request_written : t.written c'.stream ≡ t.written c.stream ++ encode request
    pub request_flushed : t.flushed c'.stream ≡ t.written c'.stream
    pub left : c'.read_buf ++ t.arriving c'.stream ≡ rest

  pub IsAsked-read :
      (request : Frame) (rest : Bytes) (c c₁ c₂ : Connection S)
      → Sent t c request c₁
      → IsRead rest c₁ c₂
      → IsAsked request rest c c₂
  IsAsked-read request rest c c₁ c₂ sent read = record {
    request_written = read.same_written ∙ sent.written_frame;
    request_flushed = read.same_flushed ∙ sent.all_flushed ∙ sym read.same_written;
    left = read.left;
  }

make_subscribe_frame-IsWire :
    (most : ℕ) (r : Bytes × ℕ) → 3 ≤ most → IsReply r → IsWire most (make_subscribe_frame r.0 r.1)
unfolding make_subscribe_frame
make_subscribe_frame-IsWire most (k, n) room (short, small) =
    (room, omega arith, (omega arith, (short, (small, tt))))

confirmed-subscribe : (k : Bytes) (n : ℕ) → confirmed k (make_subscribe_frame k n) ≡ ok tt
unfolding make_subscribe_frame
confirmed-subscribe k n = rw (is_refl k)

module _ {S : Type 0} (x : Env) (t : Stream S) (room : 3 ≤ x.max_capacity) where
  confirm_each-OrIo :
      (rs : List (Bytes × ℕ)) (rest : Bytes) (c : Connection S)
      → All IsReply rs
      → c.read_buf ++ t.arriving c.stream ≡ replies_of make_subscribe_frame rs ++ rest
      → OrIo (Breaks t) (IsRead t rest c) (confirm_each x t (named rs) c)
  unfolding confirm_each make_subscribe_frame
  confirm_each-OrIo [] rest c fit whole = returned c (IsRead-here t rest c whole)
  confirm_each-OrIo ((k, n) ∷ rs) rest c (fit, fits) whole =
      let w = make_subscribe_frame-IsWire x.max_capacity (k, n) room fit in
      OrIo-bind
        (read_response-OrIo x t c (replies_of make_subscribe_frame rs ++ rest)
          (make_subscribe_frame k n) w (λ c'. refl)
          (whole ∙ append_assoc (encode (make_subscribe_frame k n)) _ rest))
        λ (f, c') (same, left).
          rw (same, confirmed-subscribe k n)
            (OrIo-weaken (confirm_each-OrIo rs rest c' fits left.left)
              λ c''. IsRead-after t x _ w _ rest c c' c'' left)

  -- If the replies that arrive are those of `subscribe_to_channel` for the channels of the request, in
  -- their order and with any numbers, then `Client::subscribe` returns a subscriber of these channels,
  -- unless the stream fails; it has sent the request, and read the replies and nothing behind them.
  pub into_subscriber-OrIo :
      (rs : List (Bytes × ℕ)) (rest : Bytes) (c : Connection S)
      → All IsReply rs
      → c.read_buf ++ t.arriving c.stream ≡ replies_of make_subscribe_frame rs ++ rest
      → OrIo
          (Breaks t)
          (λ s.
            (s.subscribed_channels ≡ named rs)
            × IsAsked t (subscribe_frame (record { channels = named rs })) rest c s.client)
          (into_subscriber x t (named rs) c)
  unfolding into_subscriber do_subscribe
  into_subscriber-OrIo rs rest c fits whole =
      OrIo-bind
        (OrIo-bind (write_frame-OrIo t c _ (subscribe_frame-IsFlat (named rs))) λ c₁ sent.
          OrIo-weaken
            (confirm_each-OrIo rs rest c₁ fits (
              ap (λ b. b ++ t.arriving c₁.stream) sent.same_buffer
              ∙ ap (λ m. c.read_buf ++ m) sent.same_input
              ∙ whole))
            λ c₂. IsAsked-read t _ rest c c₁ c₂ sent)
        λ c' asked. returned _ (refl, asked)
