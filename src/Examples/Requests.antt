-- ===== src/Examples/Requests.antt =====
-- A `GET` that follows a `SET`, from both ends, and a listener that fails.
use redis_demo.Base.{
  ℕ, zero, suc, ◌+◌, ◌++◌, ◌≡◌, refl, sym, ap, [], codes, Option, some, none, ◌is◌, if◌then◌else◌,
  ok, err, arith,
}
use redis_demo.Frame.{simple, bulk}
use redis_demo.Frame.Wire.{encode}
use redis_demo.Std.Decimal.{to_decimal, digits}
use redis_demo.Std.HashMap
use redis_demo.Failure.{OrIo, io}
use redis_demo.Command.{Set}
use redis_demo.Command.IntoFrame.{get_frame}
use redis_demo.Db
use redis_demo.Db.{Shared}
use redis_demo.Connection.{Connection, Breaks}
use redis_demo.Connection.Write.{write_frame, write_body, write_value}
use redis_demo.Connection.Write.Sends.{Sent}
use redis_demo.Apply.{value_frame, set_apply, get_apply}
use redis_demo.Apply.Replies.{get_apply-set_apply}
use redis_demo.Client
use redis_demo.Client.Requests.{Answered, get-OrIo}
use redis_demo.Server.{Tokio, accept, accept-some, accept-none}
use redis_demo.Examples.World.{coming, env, socket, Socket}

abbrev cmd : Set
cmd = record { key = codes "k"; value = codes "v"; expire = none }

abbrev db : Shared ℕ
db = (set_apply socket env 3 cmd Db.new (coming [])).1

abbrev replied : Connection Socket
replied = record {
  stream = record { coming = []; buffered = codes "+OK\r\n"; sent = codes "+OK\r\n" };
  read_buf = [];
}

set_replies : set_apply socket env 3 cmd Db.new (coming []) ≡ (ok replied, db)
unfolding set_apply Db.set Db.new Db.locked Db.deadline write_frame write_body write_value
set_replies = refl

nothing_before : (Db.get (codes "k") (Db.new {T = ℕ})).0 ≡ some none
unfolding Db.get Db.new Db.locked HashMap.lookup
nothing_before = refl

get_apply-set_apply_example :
    Sent socket (coming []) (simple (codes "OK")) replied
    × OrIo
        (Breaks socket)
        (Sent socket
          (coming [])
          (value_frame (if codes "k" is codes "k" then some (codes "v") else none)))
        (get_apply socket (record { key = codes "k" }) db (coming [])).0
get_apply-set_apply_example =
    get_apply-set_apply socket env 3 cmd Db.new db (coming []) replied (coming []) (codes "k") none
      nothing_before set_replies

value_wire : encode (bulk (codes "v")) ≡ codes "$1\r\nv\r\n"
unfolding encode to_decimal digits
value_wire = refl

get-OrIo_example :
    OrIo
      (Breaks socket)
      (Answered env socket
        (get_frame (record { key = codes "k" }))
        (codes "+")
        (some (codes "v"))
        (coming (codes "$1\r\nv\r\n+")))
      (Client.get env socket (codes "k") (coming (codes "$1\r\nv\r\n+")))
get-OrIo_example =
    get-OrIo env socket (coming (codes "$1\r\nv\r\n+")) (codes "+") (bulk (codes "v")) (codes "k")
      (some (codes "v")) refl (omega arith) (ap (λ b. b ++ codes "+") (sym value_wire))

-- A listener that fails a number of times, and the seconds slept so far.
abbrev try_accept : ℕ × ℕ → Option (Unit {0}) × (ℕ × ℕ)
try_accept (zero, slept) = (some tt, (0, slept))
try_accept (suc n, slept) = (none, (n, slept))

abbrev flaky : Tokio (ℕ × ℕ) (Unit {0})
flaky = record { accept = try_accept; sleep = λ (n, slept) seconds. (n, slept + seconds) }

accept-some_example : accept flaky (2, 0) ≡ (ok tt, (0, 3))
accept-some_example = accept-some flaky 2 (2, 0) tt (omega arith) (refl, (refl, tt)) refl

accept-none_example : accept flaky (9, 0) ≡ (err io, (1, 127))
accept-none_example =
    accept-none flaky (9, 0) (refl, (refl, (refl, (refl, (refl, (refl, (refl, (refl, tt))))))))
