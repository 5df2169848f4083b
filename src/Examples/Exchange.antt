-- ===== src/Examples/Exchange.antt =====
-- A `SET` at one task of the server, a `SET` of another key and a purge in between, a `GET` at another
-- task, and the client of the `GET`.
use redis_demo.Base.{
  ◌≡◌, refl, sym, ap, false, true, ℕ, Bytes, codes, List, [], ◌++◌, some, ok, arith,
}
use redis_demo.Std.Utf8.{is_utf8}
use redis_demo.Std.HashMap
use redis_demo.Std.BTreeSet
use redis_demo.Std.Decimal.{to_decimal, digits}
use redis_demo.Failure.{OrIo}
use redis_demo.Frame.Wire.{encode, IsWire}
use redis_demo.Command.{Set}
use redis_demo.Command.IntoFrame.{set_frame, get_frame}
use redis_demo.Db
use redis_demo.Db.{Shared, bytes_of}
use redis_demo.Db.Spec.Refines.{new-IsOpen}
use redis_demo.Connection.{Connection, Breaks}
use redis_demo.Server.Session.{Session, reading, arrives, turn}
use redis_demo.Client
use redis_demo.Db.Steps.{Runs, here, next, sets, purges}
use redis_demo.Exchange.Interleaved.{get_between-OrIo}
use redis_demo.Examples.World.{env, socket, Socket, counter}
use redis_demo.Examples.Channels.{channels}

abbrev cmd : Set
cmd = record { key = codes "k"; value = codes "v"; expire = some 1_500_000_000 }

-- The request is in the buffer.
abbrev buffered : Bytes → Session Socket (List Bytes)
buffered b = record {
  mode = reading;
  dst = record { stream = record { coming = []; buffered = []; sent = [] }; read_buf = b };
  shutdown = record { is_shutdown = false };
}

-- The reply is sent.
abbrev replied : Bytes → Session Socket (List Bytes)
replied b = record {
  mode = reading;
  dst = record { stream = record { coming = []; buffered = b; sent = b }; read_buf = [] };
  shutdown = record { is_shutdown = false };
}

abbrev set_k : Session Socket (List Bytes)
set_k = buffered (codes "*5\r\n$3\r\nset\r\n$1\r\nk\r\n$1\r\nv\r\n$2\r\npx\r\n:1500\r\n")

abbrev get_k : Session Socket (List Bytes)
get_k = buffered (codes "*2\r\n$3\r\nget\r\n$1\r\nk\r\n")

abbrev stored : Shared ℕ
stored = (Db.set env 7 (codes "k") (codes "v") (some 1_500_000_000) Db.new).1

abbrev other_set : Shared ℕ
other_set = (Db.set env 8 (codes "b") (codes "w") (some 1) stored).1

abbrev purged : Shared ℕ
purged = (Db.purge_expired_keys 9 other_set).1

-- Another task sets "b", and the background task purges it.
abbrev between : Runs env counter stored purged
between = next (next here (sets 8 (codes "b") (codes "w") (some 1))) (purges 9)

record AreTurns : Type 0 where
  setting :
      turn env socket channels counter (arrives 7) set_k Db.new
      ≡ (ok (replied (codes "+OK\r\n")), stored)
  getting :
      turn env socket channels counter (arrives 10) get_k purged
      ≡ (ok (replied (codes "$1\r\nv\r\n")), purged)
  sound : purged.poisoned ≡ false
  running : purged.state.shutdown ≡ false

turns : AreTurns
unfolding turn redis_demo.Connection.Read.read_frame Db.set
    redis_demo.Connection.Read.read_frame_fuel Db.locked redis_demo.Connection.Read.parse_frame
    redis_demo.Connection.Read.parse_checked redis_demo.Frame.Decoder.check
    redis_demo.Frame.Decoder.check_fuel redis_demo.Frame.Reader.get_u8
    redis_demo.Connection.Read.read_round redis_demo.Frame.Decoder.check_arm
    redis_demo.Frame.Decoder.check_array redis_demo.Frame.Reader.get_decimal
    redis_demo.Frame.Reader.get_line redis_demo.Examples.World.atoi redis_demo.Frame.Decoder.repeat
    redis_demo.Frame.Reader.peek_u8 redis_demo.Frame.Decoder.check_bulk
    redis_demo.Frame.Reader.add_usize redis_demo.Apply.get_apply redis_demo.Apply.set_apply
    redis_demo.Command.Decode.dispatch redis_demo.Command.Decode.expire_parse
    redis_demo.Command.Decode.from_frame redis_demo.Command.Decode.get_parse
    redis_demo.Command.Decode.set_parse redis_demo.Connection.Read.take_frame
    redis_demo.Connection.Write.write_body redis_demo.Connection.Write.write_frame
    redis_demo.Connection.Write.write_value Db.deadline Db.get Db.new Db.store Db.next_expiration
    redis_demo.Examples.World.digits_of redis_demo.Frame.Decoder.collect
    redis_demo.Frame.Decoder.front redis_demo.Frame.Decoder.parse redis_demo.Frame.Decoder.parse_arm
    redis_demo.Frame.Decoder.parse_array redis_demo.Frame.Decoder.parse_bulk
    redis_demo.Frame.Decoder.parse_fuel redis_demo.Frame.Reader.find_crlf
    redis_demo.Frame.Reader.skip redis_demo.Parse.check_done redis_demo.Parse.new
    redis_demo.Parse.next redis_demo.Parse.next_bytes redis_demo.Parse.next_int
    redis_demo.Parse.next_string redis_demo.Server.Session.apply HashMap.insert HashMap.lookup
    is_utf8 redis_demo.Std.Decimal.to_decimal redis_demo.Std.Decimal.digits
    redis_demo.Connection.Write.write_decimal Db.purge_expired_keys Db.purge_state Db.purge_loop
    HashMap.remove BTreeSet.insert BTreeSet.remove BTreeSet.before BTreeSet.text_ltb
turns = record { setting = refl; getting = refl; sound = refl; running = refl }

set_wire :
    encode (set_frame cmd) ≡ codes "*5\r\n$3\r\nset\r\n$1\r\nk\r\n$1\r\nv\r\n$2\r\npx\r\n:1500\r\n"
unfolding encode set_frame to_decimal digits
set_wire = refl

get_wire : encode (get_frame (record { key = codes "k" })) ≡ codes "*2\r\n$3\r\nget\r\n$1\r\nk\r\n"
unfolding encode get_frame to_decimal digits
get_wire = refl

set-IsWire : IsWire env.max_capacity (set_frame cmd)
unfolding set_frame
set-IsWire = omega arith

get-IsWire : IsWire env.max_capacity (get_frame (record { key = codes "k" }))
unfolding get_frame
get-IsWire = omega arith

text : is_utf8 (codes "k") ≡ true
unfolding is_utf8
text = refl

-- The client of the `GET`, at which the value arrives.
abbrev client : Connection Socket
client = record {
  stream = record { coming = codes "$1\r\nv\r\n"; buffered = []; sent = [] };
  read_buf = [];
}

get_between-OrIo_example :
    OrIo (Breaks socket) (λ r. r.0 ≡ some (codes "v")) (Client.get env socket (codes "k") client)
get_between-OrIo_example =
    get_between-OrIo env socket counter channels cmd 7 10 Db.new stored purged purged set_k
      (replied (codes "+OK\r\n")) get_k (replied (codes "$1\r\nv\r\n")) client [] [] [] text
      set-IsWire get-IsWire (omega arith) refl (new-IsOpen env counter) refl
      (ap (λ b. b ++ []) (sym set_wire)) turns.setting between ((tt, refl), refl) turns.sound
      turns.running refl (ap (λ b. b ++ []) (sym get_wire)) turns.getting
      (codes "$1\r\nv\r\n", (refl, refl))
