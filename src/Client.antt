-- ===== src/Client.antt =====
-- `Client` (redis-lib/src/clients/client.rs): it writes a request and reads the response.
pub mod Requests
pub mod Subscriber
use redis_demo.Base.{
  ℕ, Bytes, codes, Option, none, some, Bool, ◌is◌, if◌then◌else◌, Outcome, ok, err, ◌>>=◌,
}
use redis_demo.Env.{Env}
use redis_demo.Frame.{Frame, simple, error, integer, bulk, null}
use redis_demo.Failure.{Failure, unexpected_frame, server_error, reset_by_server}
use redis_demo.Command.{Set, Duration, new_get, new_set, new_publish, new_ping}
use redis_demo.Command.IntoFrame.{get_frame, set_frame, publish_frame, ping_frame}
use redis_demo.Connection.{Stream, Connection}
use redis_demo.Connection
use redis_demo.Connection.Write.{lift_io, write_frame}
use redis_demo.Connection.Read.{read_frame}

-- `TcpStream::connect` of tokio at an address; `none` is an `io::Error`.
pub record Network (S : Type 0) : Type 0 where
  pub connect : Bytes → Option S

-- `Client::connect`
unfoldable pub connect : {S : Type 0} → Network S → Bytes → Outcome Failure (Connection S)
connect network addr = do stream ← lift_io (network.connect addr); ok (Connection.new stream)

abbrev pub response_of {ℓ} : {C : Type ℓ} → Option Frame × C → Outcome Failure (Frame × C)
response_of (some (error msg), c) = err (server_error msg)
response_of (some frame, c) = ok (frame, c)
response_of (none, c) = err reset_by_server

abbrev pub pinged : Frame → Outcome Failure Bytes
pinged (simple value) = ok value
pinged (bulk value) = ok value
pinged frame = err (unexpected_frame frame)

abbrev pub got : Frame → Outcome Failure (Option Bytes)
got (simple value) = ok (some value)
got (bulk value) = ok (some value)
got null = ok none
got other = err (unexpected_frame other)

abbrev pub acknowledged : Frame → Outcome Failure (Unit {0})
acknowledged (simple s) = if s is codes "OK" then ok tt else err (unexpected_frame (simple s))
acknowledged other = err (unexpected_frame other)

abbrev pub published : Frame → Outcome Failure ℕ
published (integer num) = ok num
published other = err (unexpected_frame other)

module _ {S : Type 0} (x : Env) (t : Stream S) where
  -- `Client::read_response`
  unfoldable pub read_response : Connection S → Outcome Failure (Frame × Connection S)
  read_response c = do r ← read_frame x t c; response_of r

  -- A request is written, and the response is read and made an answer.
  abbrev pub ask :
      {A : Type 0}
      → Frame
      → (Frame → Outcome Failure A)
      → Connection S
      → Outcome Failure (A × Connection S)
  ask request answer c = do
    c₁ ← write_frame t c request
    (response, c₂) ← read_response c₁
    a ← answer response
    ok (a, c₂)

  -- `Client::ping`
  unfoldable pub ping : Option Bytes → Connection S → Outcome Failure (Bytes × Connection S)
  ping msg = ask (ping_frame (new_ping msg)) pinged

  -- `Client::get`
  unfoldable pub get : Bytes → Connection S → Outcome Failure (Option Bytes × Connection S)
  get key = ask (get_frame (new_get key)) got

  -- `Client::set_cmd`
  unfoldable pub set_cmd : Set → Connection S → Outcome Failure (Unit {0} × Connection S)
  set_cmd cmd = ask (set_frame cmd) acknowledged

  -- `Client::set`
  unfoldable pub set : Bytes → Bytes → Connection S → Outcome Failure (Unit {0} × Connection S)
  set key value = set_cmd (new_set key value none)

  -- `Client::set_expires`
  unfoldable pub set_expires :
      Bytes → Bytes → Duration → Connection S → Outcome Failure (Unit {0} × Connection S)
  set_expires key value expiration = set_cmd (new_set key value (some expiration))

  -- `Client::publish`
  unfoldable pub publish : Bytes → Bytes → Connection S → Outcome Failure (ℕ × Connection S)
  publish channel message = ask (publish_frame (new_publish channel message)) published
