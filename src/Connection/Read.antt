-- ===== src/Connection/Read.antt =====
-- `Connection::parse_frame` and `Connection::read_frame` (redis-lib/src/connection.rs).
pub mod Reads
pub mod Ends
use redis_demo.Base.{
  ℕ, zero, suc, Bytes, [], ◌∷◌, ◌++◌, Option, none, some, ◌==◌, if◌then◌else◌, length, Outcome, ok,
  err, panic, out_of_fuel, ◌>>=◌, map_err,
}
use redis_demo.Env.{Env, Cursor}
use redis_demo.Frame.{Frame, Error, incomplete, other}
use redis_demo.Frame.Decoder.{check, parse}
use redis_demo.Failure
use redis_demo.Failure.{Failure, reset_by_peer}
use redis_demo.Connection.{Stream, Connection}
use redis_demo.Connection.Write.{lift_io}

module _ {S : Type 0} (x : Env) where
  -- The frame in front of the buffer: `check` left its cursor at `len`, and the cursor is set back
  -- to 0 for `parse`.
  unfoldable pub take_frame : Connection S → Cursor → Outcome Failure (Option Frame × Connection S)
  take_frame c buf = do
    (f, _) ← map_err Failure.frame (parse x (record { get_ref = buf.get_ref; position = 0 }))
    ok (some f, record { stream = c.stream; read_buf = x.advance_buf c.read_buf buf.position })

  unfoldable pub parse_checked :
      Connection S → Outcome Error Cursor → Outcome Failure (Option Frame × Connection S)
  parse_checked c (ok buf) = take_frame c buf
  parse_checked c (err incomplete) = ok (none, c)
  parse_checked c (err (other e)) = err (Failure.frame (other e))
  parse_checked c panic = panic
  parse_checked c out_of_fuel = out_of_fuel

  unfoldable pub parse_frame : Connection S → Outcome Failure (Option Frame × Connection S)
  parse_frame c = parse_checked c (check x (record { get_ref = c.read_buf; position = 0 }))

  module _ (t : Stream S) where
    -- A round of the loop after `parse_frame`: a frame is returned, else more bytes are read. `again`
    -- is the next round.
    unfoldable pub read_round :
        (Connection S → Outcome Failure (Option Frame × Connection S))
        → Option Frame × Connection S
        → Outcome Failure (Option Frame × Connection S)
    read_round again (some f, c) = ok (some f, c)
    read_round again (none, c) = do
      (bytes, s) ← lift_io (t.read_buf c.stream)
      let c' : Connection S = record { stream = s; read_buf = c.read_buf ++ bytes }
      let rest = again c'
      if length bytes == 0
          then if length c'.read_buf == 0 then ok (none, c') else err reset_by_peer
          else rest

    unfoldable pub read_frame_fuel :
        ℕ → Connection S → Outcome Failure (Option Frame × Connection S)
    read_frame_fuel zero c = out_of_fuel
    read_frame_fuel (suc k) c = do r ← parse_frame c; read_round (read_frame_fuel k) r

    -- A read that does not end the stream brings at least a byte, so one round for each byte that is
    -- still to arrive and one for the end are enough.
    unfoldable pub read_frame : Connection S → Outcome Failure (Option Frame × Connection S)
    read_frame c = read_frame_fuel (suc (length (t.arriving c.stream))) c
