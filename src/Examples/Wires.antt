-- ===== src/Examples/Wires.antt =====
-- redis-lib/src/connection.rs and redis-lib/src/cmd at a `SET` and at the frames of the sample.
use redis_demo.Base.{arith, Bytes, ◌++◌, ◌≡◌, refl, true, sym, ap, [], codes, some, ok}
use redis_demo.Std.Utf8.{is_utf8}
use redis_demo.Frame.{Frame, bulk, array, nil, cons}
use redis_demo.Frame.Wire.{encode, IsWire}
use redis_demo.Failure.{OrIo}
use redis_demo.Command.{Command, get, set}
use redis_demo.Command.IntoFrame.{set_frame, get_frame}
use redis_demo.Command.Decode.{from_frame}
use redis_demo.Command.RoundTrip.{received, from_frame-into_frame}
use redis_demo.Connection.{Connection, Breaks}
use redis_demo.Connection.Write.{write_frame}
use redis_demo.Connection.Write.Sends.{Sent, write_frame-OrIo}
use redis_demo.Connection.Read.{read_frame}
use redis_demo.Connection.Read.Reads.{Gets, Left, read_frame-OrIo}
use redis_demo.Connection.Read.Ends.{Ends, read_frame-Ends}
use redis_demo.Server.Process.{receive, receive-OrIo}
use redis_demo.Std.Decimal.{to_decimal, digits}
use redis_demo.Examples.World.{env, socket, Socket}
use redis_demo.Examples.Frames.{sample, sample-IsWire, sample_wire}

-- `SET k v PX 1500`
abbrev a_set : Command
a_set = set (record { key = codes "k"; value = codes "v"; expire = some 1_500_000_000 })

text : is_utf8 (codes "k") ≡ true
unfolding is_utf8
text = refl

from_frame-into_frame_example :
    from_frame env
      (set_frame (record { key = codes "k"; value = codes "v"; expire = some 1_500_000_000 }))
    ≡ ok (received a_set)
from_frame-into_frame_example =
    from_frame-into_frame env a_set
      (set_frame (record { key = codes "k"; value = codes "v"; expire = some 1_500_000_000 })) refl
      text

abbrev fresh : Connection Socket
fresh = record {
  stream = record { coming = []; buffered = codes "+OK"; sent = [] };
  read_buf = codes "*";
}

write_frame-OrIo_example :
    OrIo (Breaks socket) (Sent socket fresh sample) (write_frame socket fresh sample)
write_frame-OrIo_example = write_frame-OrIo socket fresh sample (tt, (tt, (tt, tt)))

-- A connection with `b` in its buffer, and `m` still to come.
abbrev arriving : Bytes → Bytes → Connection Socket
arriving b m = record { stream = record { coming = m; buffered = []; sent = [] }; read_buf = b }

-- Two bytes are in the buffer, the others are still to come.
abbrev halfway : Connection Socket
halfway = record {
  stream = record {
    coming = codes "\r\n$2\r\nhi\r\n$-1\r\n:42\r\n+PONG";
    buffered = [];
    sent = [];
  };
  read_buf = codes "*3";
}

read_frame-OrIo_example :
    OrIo
      (Breaks socket)
      (Gets env sample sample-IsWire socket (codes "+PONG") halfway)
      (read_frame env socket halfway)
read_frame-OrIo_example =
    read_frame-OrIo env sample sample-IsWire socket halfway (codes "+PONG")
      (sym (ap (λ b. b ++ codes "+PONG") sample_wire))

read_frame-Ends_example :
    Ends socket (codes "*3\r\n$2") (read_frame env socket (arriving (codes "*3") (codes "\r\n$2")))
read_frame-Ends_example =
    read_frame-Ends env socket sample sample-IsWire (codes "*3\r\n$2")
      (codes "\r\nhi\r\n$-1\r\n:42\r\n") (sym sample_wire) (cc)
      (arriving (codes "*3") (codes "\r\n$2")) refl

-- The frame of `GET k`.
abbrev get_k : Frame
get_k = array (cons (bulk (codes "get")) (cons (bulk (codes "k")) nil))

get_k_wire : encode get_k ≡ codes "*2\r\n$3\r\nget\r\n$1\r\nk\r\n"
unfolding encode to_decimal digits
get_k_wire = refl

get_k-IsWire : IsWire 1000 get_k
get_k-IsWire = omega arith

receive-OrIo_example :
    OrIo
      (Breaks socket)
      (λ r.
        (r.0 ≡ some (get (record { key = codes "k" })))
        × Left env get_k get_k-IsWire socket []
            (arriving (codes "*2") (codes "\r\n$3\r\nget\r\n$1\r\nk\r\n"))
            r.1)
      (receive env socket (arriving (codes "*2") (codes "\r\n$3\r\nget\r\n$1\r\nk\r\n")))
unfolding get_frame
receive-OrIo_example =
    receive-OrIo env socket (get (record { key = codes "k" })) get_k
      (arriving (codes "*2") (codes "\r\n$3\r\nget\r\n$1\r\nk\r\n")) [] get_k-IsWire refl text
      (ap (λ b. b ++ []) (sym get_k_wire))
