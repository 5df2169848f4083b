-- ===== src/Examples/Subscribing.antt =====
-- A client subscribes to "a" at a task of the server, and names it twice.
use redis_demo.Base.{
  ◌≡◌, refl, sym, ap, false, ℕ, Bytes, codes, List, [], ◌∷◌, ◌++◌, All, ok, true, arith,
}
use redis_demo.Std.Decimal.{to_decimal, digits}
use redis_demo.Std.Utf8.{is_utf8}
use redis_demo.Std.HashMap
use redis_demo.Frame.Wire.{encode, IsWire}
use redis_demo.Failure.{OrIo}
use redis_demo.Command.{Subscribe}
use redis_demo.Command.IntoFrame.{subscribe_frame, push_channels}
use redis_demo.Db
use redis_demo.Db.{Shared}
use redis_demo.Connection.{Connection, Breaks}
use redis_demo.Server.Session.{Session, reading, subscribed, arrives, turn}
use redis_demo.Server.Session.Subscribing.{IsSubscriber, numbers}
use redis_demo.Client.Subscriber.{into_subscriber}
use redis_demo.Client.Subscriber.Confirms.{IsReply}
use redis_demo.Exchange.Subscribing.{into_subscriber-IsSubscriber}
use redis_demo.Examples.World.{env, socket, Socket, counter}
use redis_demo.Examples.Channels.{channels}

abbrev cmd : Subscribe
cmd = record { channels = codes "a" ∷ codes "a" ∷ [] }

-- The request is in the buffer.
abbrev asked : Session Socket (List Bytes)
asked = record {
  mode = reading;
  dst = record {
    stream = record { coming = []; buffered = []; sent = [] };
    read_buf = codes "*3\r\n$9\r\nsubscribe\r\n$1\r\na\r\n$1\r\na\r\n";
  };
  shutdown = record { is_shutdown = false };
}

abbrev confirmations : Bytes
confirmations =
    codes "*3\r\n$9\r\nsubscribe\r\n$1\r\na\r\n:1\r\n*3\r\n$9\r\nsubscribe\r\n$1\r\na\r\n:1\r\n"

-- The confirmations are sent.
abbrev confirmed : Session Socket (List Bytes)
confirmed = record {
  mode = subscribed (codes "a" ∷ []);
  dst = record {
    stream = record { coming = []; buffered = confirmations; sent = confirmations };
    read_buf = [];
  };
  shutdown = record { is_shutdown = false };
}

-- The receiver of the first subscription is dropped.
abbrev joined : Shared ℕ
joined =
    Db.release counter (codes "a")
      (Db.subscribe counter (codes "a") (Db.subscribe counter (codes "a") Db.new).1).1

turned : turn env socket channels counter (arrives 7) asked Db.new ≡ (ok confirmed, joined)
unfolding turn redis_demo.Connection.Read.read_frame Db.subscribe Db.release
    redis_demo.Connection.Read.read_frame_fuel Db.locked redis_demo.Connection.Read.parse_frame
    Db.new redis_demo.Connection.Read.parse_checked redis_demo.Frame.Decoder.check
    redis_demo.Frame.Decoder.check_fuel redis_demo.Frame.Reader.get_u8
    redis_demo.Frame.Decoder.check_arm redis_demo.Frame.Decoder.check_array
    redis_demo.Frame.Reader.get_decimal redis_demo.Frame.Reader.get_line
    redis_demo.Examples.World.atoi redis_demo.Frame.Decoder.repeat redis_demo.Frame.Reader.peek_u8
    redis_demo.Frame.Decoder.check_bulk redis_demo.Frame.Reader.add_usize
    redis_demo.Frame.Reader.skip redis_demo.Command.Decode.channels_loop
    redis_demo.Command.Decode.dispatch redis_demo.Command.Decode.from_frame
    redis_demo.Command.Decode.subscribe_parse redis_demo.Connection.Read.read_round
    redis_demo.Connection.Read.take_frame redis_demo.Connection.Write.write_body
    redis_demo.Connection.Write.write_decimal redis_demo.Connection.Write.write_entries
    redis_demo.Connection.Write.write_frame redis_demo.Connection.Write.write_value
    redis_demo.Examples.World.digits_of redis_demo.Frame.Decoder.collect
    redis_demo.Frame.Decoder.front redis_demo.Frame.Decoder.parse redis_demo.Frame.Decoder.parse_arm
    redis_demo.Frame.Decoder.parse_array redis_demo.Frame.Decoder.parse_bulk
    redis_demo.Frame.Decoder.parse_fuel redis_demo.Frame.Reader.find_crlf
    redis_demo.Parse.check_done redis_demo.Parse.new redis_demo.Parse.next
    redis_demo.Parse.next_string redis_demo.Server.Session.apply
    redis_demo.Server.Session.subscribe_all digits to_decimal HashMap.insert HashMap.lookup is_utf8
    redis_demo.Subscriptions.make_subscribe_frame redis_demo.Subscriptions.subscribe_to_channel
    redis_demo.Examples.Channels.insert_channel redis_demo.Examples.Channels.remove_channel
    redis_demo.Examples.Channels.without
turned = refl

fits : All IsReply (numbers channels counter cmd.channels [] Db.new)
unfolding Db.subscribe Db.release Db.new Db.locked HashMap.lookup HashMap.insert
    redis_demo.Examples.Channels.insert_channel redis_demo.Examples.Channels.remove_channel
    redis_demo.Examples.Channels.without
fits = omega arith

wire : encode (subscribe_frame cmd) ≡ codes "*3\r\n$9\r\nsubscribe\r\n$1\r\na\r\n$1\r\na\r\n"
unfolding encode subscribe_frame push_channels to_decimal digits
wire = refl

wire-IsWire : IsWire env.max_capacity (subscribe_frame cmd)
unfolding subscribe_frame push_channels
wire-IsWire = omega arith

texts : All (λ k. is_utf8 k ≡ true) cmd.channels
unfolding is_utf8
texts = (refl, (refl, tt))

new_sound : (Db.new {T = ℕ}).poisoned ≡ false
unfolding Db.new
new_sound = refl

abbrev client : Connection Socket
client = record {
  stream = record { coming = confirmations; buffered = []; sent = [] };
  read_buf = [];
}

into_subscriber-IsSubscriber_example :
    OrIo
      (Breaks socket)
      (λ r. r.subscribed_channels ≡ codes "a" ∷ codes "a" ∷ [])
      (into_subscriber env socket (codes "a" ∷ codes "a" ∷ []) client)
    × IsSubscriber env socket channels counter cmd.channels asked.dst Db.new confirmed.mode
        confirmed.dst joined
into_subscriber-IsSubscriber_example =
    into_subscriber-IsSubscriber env socket counter channels cmd 7 asked confirmed Db.new joined
      client [] [] (omega arith) wire-IsWire ((cc), texts) fits new_sound refl
      (ap (λ b. b ++ []) (sym wire)) turned (confirmations, (refl, refl))
