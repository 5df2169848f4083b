-- ===== src/Server/Process.antt =====
-- The first half of a round of `process` (redis-lib/src/server.rs), where no shutdown signal comes:
-- a request frame is read and decoded.
use redis_demo.Base.{◌≡◌, refl, ◌++◌, Bytes, Option, none, some, Outcome, ok, ◌>>=◌}
use redis_demo.Env.{Env}
use redis_demo.Frame.{Frame}
use redis_demo.Frame.Wire.{encode, IsWire}
use redis_demo.Failure.{Failure, OrIo, returned, OrIo-bind}
use redis_demo.Command.{Command}
use redis_demo.Command.Decode.{from_frame}
use redis_demo.Command.RoundTrip.{into_frame, IsRequest, received, from_frame-into_frame}
use redis_demo.Connection.{Stream, Connection, Breaks}
use redis_demo.Connection.Read.{read_frame}
use redis_demo.Connection.Read.Reads.{Left, read_frame-OrIo}

module _ {S : Type 0} (x : Env) (t : Stream S) where
  abbrev pub command_of :
      Option Frame × Connection S → Outcome Failure (Option Command × Connection S)
  command_of (none, c) = ok (none, c)
  command_of (some frame, c) = do cmd ← from_frame x frame; ok (some cmd, c)

  -- `none` ends the task: the peer has closed the connection.
  unfoldable pub receive : Connection S → Outcome Failure (Option Command × Connection S)
  receive c = do r ← read_frame x t c; command_of r

  -- If the bytes in the buffer and those still to arrive begin with the wire form of the frame that
  -- the client makes of a command, and the command's texts are UTF-8, then the server receives that
  -- command, a SET with its expiry cut to whole milliseconds and to 64 bits, or meets an error of the
  -- stream; exactly the bytes behind the frame are left to read, and nothing was written.
  pub receive-OrIo :
      (cmd : Command) (f : Frame) (c : Connection S) (rest : Bytes) (w : IsWire x.max_capacity f)
      → into_frame cmd ≡ some f
      → IsRequest cmd
      → c.read_buf ++ t.arriving c.stream ≡ encode f ++ rest
      → OrIo (Breaks t) (λ r. (r.0 ≡ some (received cmd)) × Left x f w t rest c r.1) (receive c)
  unfolding receive
  receive-OrIo cmd f c rest w e h whole =
      OrIo-bind (read_frame-OrIo x f w t c rest whole) λ (o, c') (same, left).
        rw (same, from_frame-into_frame x cmd f e h)
          (returned (some (received cmd), c') (refl, left))
