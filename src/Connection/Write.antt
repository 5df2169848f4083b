-- ===== src/Connection/Write.antt =====
-- `Connection::write_frame` (redis-lib/src/connection.rs).
pub mod Sends
use redis_demo.Base.{
  ℕ, suc, ◌≡◌, Bytes, codes, [], ◌∷◌, Option, none, some, leb, if◌then◌else◌, length, Outcome, ok,
  err, panic, ◌>>=◌,
}
use redis_demo.Std.Decimal.{to_decimal}
use redis_demo.Frame.{Frame, Frames, simple, error, integer, bulk, null, array, nil, cons, len}
use redis_demo.Failure.{Failure, io}
use redis_demo.Connection.{Stream, Connection}

-- `?` on the result of an operation of the stream.
abbrev pub lift_io {ℓ} : {A : Type ℓ} → Option A → Outcome Failure A
lift_io none = err io
lift_io (some a) = ok a

module _ {S : Type 0} (t : Stream S) where
  abbrev pub write_all : S → Bytes → Outcome Failure S
  write_all s b = lift_io (t.write_all s b)

  abbrev pub write_u8 : S → ℕ → Outcome Failure S
  write_u8 s b = write_all s (b ∷ [])

  -- `write!` into a buffer of 20 bytes fails if they are not enough.
  unfoldable pub write_decimal : S → ℕ → Outcome Failure S
  write_decimal s n =
      if leb (length (to_decimal n)) 20
      then (do s' ← write_all s (to_decimal n); write_all s' (codes "\r\n"))
      else err io

  unfoldable pub write_value : S → Frame → Outcome Failure S
  write_value s (simple v) = do
    s₁ ← write_u8 s b'+'
    s₂ ← write_all s₁ v
    write_all s₂ (codes "\r\n")
  write_value s (error v) = do
    s₁ ← write_u8 s b'-'
    s₂ ← write_all s₁ v
    write_all s₂ (codes "\r\n")
  write_value s (integer n) = do s₁ ← write_u8 s b':'; write_decimal s₁ n
  write_value s null = write_all s (codes "$-1\r\n")
  write_value s (bulk v) = do
    s₁ ← write_u8 s b'$'
    s₂ ← write_decimal s₁ (length v)
    s₃ ← write_all s₂ v
    write_all s₃ (codes "\r\n")
  write_value s (array fs) = panic

  -- `for entry in val { self.write_value(entry)?; }`
  unfoldable pub write_entries : S → Frames → Outcome Failure S
  write_entries s nil = ok s
  write_entries s (cons f fs) = do s' ← write_value s f; write_entries s' fs

  unfoldable pub write_body : S → Frame → Outcome Failure S
  write_body s (array fs) = do
    s₁ ← write_u8 s b'*'
    s₂ ← write_decimal s₁ (len fs)
    write_entries s₂ fs
  write_body s f = write_value s f

  unfoldable pub write_frame : Connection S → Frame → Outcome Failure (Connection S)
  write_frame c f = do
    s ← write_body c.stream f
    s' ← lift_io (t.flush s)
    ok (record { stream = s'; read_buf = c.read_buf })
