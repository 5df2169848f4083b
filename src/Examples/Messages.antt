-- ===== src/Examples/Messages.antt =====
-- A task that forwards the message "hi" on the channel "c", and the subscriber that gets it.
use redis_demo.Base.{◌≡◌, refl, false, ℕ, Bytes, codes, List, [], ◌∷◌, some, ok, arith}
use redis_demo.Std.Decimal.{to_decimal, digits}
use redis_demo.Failure.{OrIo}
use redis_demo.Db
use redis_demo.Db.{Shared}
use redis_demo.Connection.{Breaks}
use redis_demo.Connection.Write.{write_frame, write_body, write_value, write_entries, write_decimal}
use redis_demo.Subscriptions.{make_message_frame}
use redis_demo.Server.Session.{Session, subscribed, delivers, turn}
use redis_demo.Client.Subscriber.{Subscriber, next_message}
use redis_demo.Client.Subscriber.Receives.{shown}
use redis_demo.Exchange.Messages.{next_message_after_delivery-OrIo}
use redis_demo.Examples.World.{env, socket, Socket, counter}
use redis_demo.Examples.Channels.{channels}

abbrev wire : Bytes
wire = codes "*3\r\n$7\r\nmessage\r\n$1\r\nc\r\n$2\r\nhi\r\n"

-- Subscribed to "c", and `b` was written.
abbrev task : Bytes → Session Socket (List Bytes)
task b = record {
  mode = subscribed (codes "c" ∷ []);
  dst = record { stream = record { coming = []; buffered = b; sent = b }; read_buf = [] };
  shutdown = record { is_shutdown = false };
}

abbrev subscriber : Subscriber Socket
subscriber = record {
  client = record { stream = record { coming = wire; buffered = []; sent = [] }; read_buf = [] };
  subscribed_channels = codes "c" ∷ [];
}

abbrev db : Shared ℕ
db = Db.new

forwarded :
    turn env socket channels counter (delivers (codes "c") (codes "hi")) (task []) db
    ≡ (ok (task wire), db)
unfolding turn write_frame write_body write_value write_entries write_decimal make_message_frame
    to_decimal digits
forwarded = refl

next_message_after_delivery-OrIo_example :
    ((task wire).mode ≡ subscribed (codes "c" ∷ []))
    × OrIo
        (Breaks socket)
        (λ r.
          r.0 ≡ some (record { channel = shown env (codes "c"); content = shown env (codes "hi") }))
        (next_message env socket subscriber)
next_message_after_delivery-OrIo_example =
    next_message_after_delivery-OrIo env socket counter channels (codes "c") (codes "hi")
      (codes "c" ∷ []) (task []) (task wire) db db subscriber [] (omega arith) (omega arith)
      (omega arith) refl refl forwarded (wire, (refl, refl))
