-- ===== src/Demo.antt =====
-- redis-bin/src/main.rs: two clients of a server make some calls, and lines are printed.
pub mod Prints
use redis_demo.Base.{
  Bool, true, false, if◌then◌else◌, Bytes, codes, List, [], ◌∷◌, ◌++◌, Option, none, some, ok,
}
use redis_demo.Env.{Env}
use redis_demo.Connection.{Stream, Connection}
use redis_demo.Client
use redis_demo.Client.{Network}
use redis_demo.Client.Subscriber.{Subscriber, Message, into_subscriber, next_message}
use redis_demo.Cli.{Printed, calls, prints}

-- `result.is_some()` as `println!` shows it
abbrev pub is_some : Option Bytes → Bytes
is_some none = codes "false"
is_some (some value) = codes "true"

abbrev pub success_line : Option Bytes → Bytes
success_line result = codes "got value from the server; success=" ++ is_some result

abbrev pub received_line : Env → Message → Bytes
received_line x msg =
    codes "channel: " ++ (msg.channel ++ (codes " ==> message = " ++ x.debug_bytes msg.content))

module _ {S : Type 0} (x : Env) (t : Stream S) where
  -- `if let Some(msg) = …`
  abbrev pub print_received : Option Message × Subscriber S → Printed
  print_received (none, subscriber) = ([], ok tt)
  print_received (some msg, subscriber) = prints (received_line x msg) ([], ok tt)

  -- From the subscription on.
  abbrev pub exchange : Connection S → Connection S → Printed
  exchange client client_2 = calls (into_subscriber x t (codes "foo" ∷ []) client) λ subscriber.
      calls (Client.publish x t (codes "foo") (codes "bar") client_2)
        λ published. calls (next_message x t subscriber) print_received

  -- `first` and `second` are what the network does at the two calls of `connect`.
  unfoldable pub main : Network S → Network S → Printed
  main first second = calls (Client.connect first (codes "127.0.0.1:6379")) λ client.
      calls (Client.connect second (codes "127.0.0.1:6379")) λ client_2.
        calls (Client.set x t (codes "hello") (codes "world") client) λ (_, client').
          calls (Client.get x t (codes "hello") client')
            λ (result, client''). prints (success_line result) (exchange client'' client_2)
