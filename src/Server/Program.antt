-- ===== src/Server/Program.antt =====
-- redis-bin/src/bin/server_proxy.rs: the program that runs the server.
use redis_demo.Base.{ℕ, Bytes, codes, ◌++◌, Option, Outcome, ok, ◌>>=◌}
use redis_demo.Std.Decimal.{to_decimal}
use redis_demo.Failure.{Failure}
use redis_demo.Connection.Write.{lift_io}
use redis_demo.Server.Run.{Server, started}

-- `DEFAULT_PORT` (redis-lib/src/lib.rs)
abbrev pub default_port : ℕ
default_port = 6379

pub record CliCommand : Type 0 where
  pub port : ℕ

abbrev pub default_command : CliCommand
default_command = record { port = default_port }

-- `TcpListener::bind` of tokio at an address; `none` is an `io::Error`.
pub record Binding (L : Type 0) : Type 0 where
  pub bind : Bytes → Option L

-- `main` with the arguments `cmd`, as far as the first wait of `server::run`; `logging` is what the
-- set-up of the logs returned.
unfoldable pub main :
    {L S M T : Type 0}
    → Binding L
    → Outcome Failure (Unit {0})
    → CliCommand
    → Outcome Failure (L × Server S M T)
main network logging cmd = do
  _ ← logging
  listener ← lift_io (network.bind (codes "127.0.0.1:" ++ to_decimal cmd.port))
  ok (listener, started)
