-- ===== src/Cli.antt =====
-- redis-bin/src/bin/cli.rs: it connects, makes one call of the client and prints lines.
pub mod Durations
pub mod Prints
use redis_demo.Base.{
  ℕ, zero, suc, ◌+◌, ◌-◌, ◌*◌, ◌^◌, Bool, true, false, Bytes, codes, List, [], ◌∷◌, ◌++◌, Option,
  none, some, ltb, leb, ◌&&◌, ◌==◌, if◌then◌else◌, Outcome, ok, err, panic, out_of_fuel, ◌>>=◌,
}
use redis_demo.Std.Utf8.{is_utf8}
use redis_demo.Env.{Env}
use redis_demo.Failure.{Failure, no_channels}
use redis_demo.Command.{Duration, from_millis}
use redis_demo.Connection.{Stream, Connection}
use redis_demo.Client
use redis_demo.Client.{Network}
use redis_demo.Std.Decimal.{to_decimal}
use redis_demo.Client.Subscriber.{Subscriber, Message, into_subscriber, next_message}

-- `std::num::IntErrorKind`, as far as `parse::<u64>` uses it
pub data ParseIntError : Type 0 where
  no_digits invalid_digit pos_overflow : ParseIntError

abbrev pub within : ℕ → Outcome ParseIntError ℕ
within n = if ltb n (2 ^ 64) then ok n else err pos_overflow

-- The digits of `str::parse::<u64>`, from the left.
unfoldable pub parse_digits : ℕ → Bytes → Outcome ParseIntError ℕ
parse_digits result [] = ok result
parse_digits result (c ∷ src) =
    if leb 48 c && leb c 57
    then (do mul ← within (result * 10); sum ← within (mul + (c - 48)); parse_digits sum src)
    else err invalid_digit

-- A sign "+" may stand before the digits.
unfoldable pub parse_u64 : Bytes → Outcome ParseIntError ℕ
parse_u64 [] = err no_digits
parse_u64 (c ∷ []) = if c == 43 then err invalid_digit else parse_digits 0 (c ∷ [])
parse_u64 (c ∷ (d ∷ src)) =
    if c == 43 then parse_digits 0 (d ∷ src) else parse_digits 0 (c ∷ (d ∷ src))

unfoldable pub duration_from : Bytes → Outcome ParseIntError Duration
duration_from src = do ms ← parse_u64 src; ok (from_millis ms)

pub data Command : Type 0 where
  ping : Option Bytes → Command
  get : Bytes → Command
  set : Bytes → Bytes → Option Duration → Command
  publish : Bytes → Bytes → Command
  subscribe : List Bytes → Command

pub record CliCommand : Type 0 where
  pub sub_cmd : Command
  pub host : Bytes
  pub port : ℕ

-- The lines that were printed, and how the program ended.
abbrev pub Printed : Type 0
Printed = List Bytes × Outcome Failure (Unit {0})

-- A text in quotes, other bytes in the form of `Debug`.
abbrev pub quoted : Env → Bytes → Bytes
quoted x bytes = if is_utf8 bytes then codes "\"" ++ (bytes ++ codes "\"") else x.debug_bytes bytes

abbrev pub value_line : Env → Option Bytes → Bytes
value_line x none = codes "(nil)"
value_line x (some bytes) = quoted x bytes

abbrev pub message_line : Env → Message → Bytes
message_line x msg =
    codes "got message from the channel: "
    ++ (msg.channel ++ (codes "; message = " ++ x.debug_bytes msg.content))

-- `?` on a call of the client, before anything is printed.
abbrev pub calls : {A : Type 0} → Outcome Failure A → (A → Printed) → Printed
calls (ok a) next = next a
calls (err e) next = ([], err e)
calls panic next = ([], panic)
calls out_of_fuel next = ([], out_of_fuel)

-- `println!`
abbrev pub prints : Bytes → Printed → Printed
prints line (lines, end) = (line ∷ lines, end)

module _ {S : Type 0} where
  -- `println!` of what a call returned
  abbrev pub print_line : {A : Type 0} → (A → Bytes) → Outcome Failure (A × Connection S) → Printed
  print_line line o = calls o λ (a, client). prints (line a) ([], ok tt)

  abbrev pub print_next : Env → (Subscriber S → Printed) → Option Message × Subscriber S → Printed
  print_next x next (none, subscriber) = ([], ok tt)
  print_next x next (some msg, subscriber) = prints (message_line x msg) (next subscriber)

  -- What `next_message` returned is printed, and the loop goes on; none ends it.
  abbrev pub print_message :
      Env → (Subscriber S → Printed) → Outcome Failure (Option Message × Subscriber S) → Printed
  print_message x next o = calls o (print_next x next)

module _ {S : Type 0} (x : Env) (t : Stream S) where
  -- `while let Some(msg) = …`, with fuel for its rounds
  unfoldable pub print_messages : ℕ → Subscriber S → Printed
  print_messages zero subscriber = ([], out_of_fuel)
  print_messages (suc n) subscriber =
      print_message x (print_messages n) (next_message x t subscriber)

  -- `match cmd.sub_cmd { … }`; `rounds` is fuel for the messages of a subscription.
  unfoldable pub main : ℕ → Command → Connection S → Printed
  main rounds (ping echo) client = print_line (quoted x) (Client.ping x t echo client)
  main rounds (get key) client = print_line (value_line x) (Client.get x t key client)
  main rounds (set key value none) client =
      print_line (λ _. codes "OK") (Client.set x t key value client)
  main rounds (set key value (some expires)) client =
      print_line (λ _. codes "OK") (Client.set_expires x t key value expires client)
  main rounds (publish channel message) client =
      print_line (λ _. codes "Publish OK") (Client.publish x t channel message client)
  main rounds (subscribe []) client = ([], err no_channels)
  main rounds (subscribe (k ∷ ks)) client =
      calls (into_subscriber x t (k ∷ ks) client) (print_messages rounds)

  -- `main` with the arguments `cmd`
  unfoldable pub start : Network S → ℕ → CliCommand → Printed
  start network rounds cmd =
      calls (Client.connect network (cmd.host ++ (codes ":" ++ to_decimal cmd.port)))
        (main rounds cmd.sub_cmd)
