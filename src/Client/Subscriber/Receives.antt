-- ===== src/Client/Subscriber/Receives.antt =====
-- `Subscriber::next_message` (redis-lib/src/clients/client.rs) against the frame that the server
-- writes for a message (redis-lib/src/cmd/subscribe.rs).
use redis_demo.Base.{
  ℕ, ◌+◌, ◌^◌, ◌<◌, ◌≤◌, ◌≡◌, refl, ◌++◌, Bytes, length, some, ok, arith, if◌then◌else◌,
}
use redis_demo.Std.Utf8.{is_utf8}
use redis_demo.Env.{Env}
use redis_demo.Frame.Wire.{encode, IsWire}
use redis_demo.Frame.Display.{to_string}
use redis_demo.Failure.{OrIo, returned, OrIo-bind}
use redis_demo.Connection.{Stream, Breaks}
use redis_demo.Connection.Read.Reads.{read_frame-OrIo}
use redis_demo.Subscriptions.{make_message_frame}
use redis_demo.Client.Subscriber.{Subscriber, message_of, next_message}
use redis_demo.Client.Subscriber.Confirms.{IsRead}

-- The bytes as they are, if they are a text, else the way `Debug` prints them.
abbrev pub shown : Env → Bytes → Bytes
shown x b = if is_utf8 b then b else x.debug_bytes b

make_message_frame-IsWire :
    (most : ℕ) (k msg : Bytes)
    → 3 ≤ most
    → length k + 2 < 2 ^ 64
    → length msg + 2 < 2 ^ 64
    → IsWire most (make_message_frame k msg)
unfolding make_message_frame
make_message_frame-IsWire most k msg room short small =
    (room, omega arith, (omega arith, (short, (small, tt))))

message_of-message :
    (x : Env) (k msg : Bytes)
    → message_of x (make_message_frame k msg)
      ≡ ok (some (record { channel = shown x k; content = shown x msg }))
unfolding make_message_frame to_string
message_of-message x k msg = refl

module _ {S : Type 0} (x : Env) (t : Stream S) (room : 3 ≤ x.max_capacity) where
  -- If the frame of a message arrives, then `next_message` returns its channel and its content, each
  -- as it is if it is UTF-8, else in the text of its `Debug`, unless the stream fails; it reads
  -- nothing behind that frame, writes nothing, and the subscribed channels stay as they are.
  pub next_message-OrIo :
      (k msg rest : Bytes) (s : Subscriber S)
      → length k + 2 < 2 ^ 64
      → length msg + 2 < 2 ^ 64
      → s.client.read_buf ++ t.arriving s.client.stream ≡ encode (make_message_frame k msg) ++ rest
      → OrIo
          (Breaks t)
          (λ (m, s').
            (m ≡ some (record { channel = shown x k; content = shown x msg }))
            × (s'.subscribed_channels ≡ s.subscribed_channels)
            × IsRead t rest s.client s'.client)
          (next_message x t s)
  unfolding next_message
  next_message-OrIo k msg rest s short small whole =
      let w = make_message_frame-IsWire x.max_capacity k msg room short small in
      OrIo-bind (read_frame-OrIo x (make_message_frame k msg) w t s.client rest whole)
        λ (o, c) (same, left).
          rw (same, message_of-message x k msg)
            (returned _ (
              refl,
              refl,
              record {
                left = left.left;
                same_written = left.same_written;
                same_flushed = left.same_flushed;
              },
            ))
