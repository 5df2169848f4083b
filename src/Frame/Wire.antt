-- ===== src/Frame/Wire.antt =====
-- The reference form of a frame on the wire, as the Redis protocol defines it, and the frames that
-- have one.
use redis_demo.Base.{ℕ, ◌+◌, ◌^◌, ◌≤◌, ◌<◌, ◌≡◌, true, [], ◌∷◌, ◌++◌, Bytes, length}
use redis_demo.Std.Utf8.{is_utf8}
use redis_demo.Std.Decimal.{to_decimal}
use redis_demo.Frame.{Frame, Frames, simple, error, integer, bulk, null, array, nil, cons, len}
use redis_demo.Frame.Reader.At.{crlf, NoCrlf}

unfoldable mutual
  pub encode : Frame → Bytes
  encode (simple s) = b'+' ∷ (s ++ crlf)
  encode (error s) = b'-' ∷ (s ++ crlf)
  encode (integer n) = b':' ∷ (to_decimal n ++ crlf)
  encode (bulk s) = b'$' ∷ (to_decimal (length s) ++ (crlf ++ (s ++ crlf)))
  encode null = b'$' ∷ b'-' ∷ b'1' ∷ crlf
  encode (array fs) = b'*' ∷ (to_decimal (len fs) ++ (crlf ++ encode_items fs))

  pub encode_items : Frames → Bytes
  encode_items nil = []
  encode_items (cons f fs) = encode f ++ encode_items fs

-- A text on a line of its own: UTF-8 without "\r\n".
abbrev pub IsLine : Bytes → Type 0
IsLine s = (is_utf8 s ≡ true) × NoCrlf s

-- The values that the Rust types hold and that the wire form can carry, with arrays of at most
-- `cap` elements.
abbrev mutual
  pub IsWire : ℕ → Frame → Type 0
  IsWire cap (simple s) = IsLine s
  IsWire cap (error s) = IsLine s
  IsWire cap (integer n) = n < 2 ^ 64
  IsWire cap (bulk s) = length s + 2 < 2 ^ 64
  IsWire cap null = Unit {0}
  IsWire cap (array fs) = (len fs ≤ cap) × (len fs < 2 ^ 64) × AreWire cap fs

  pub AreWire : ℕ → Frames → Type 0
  AreWire cap nil = Unit {0}
  AreWire cap (cons f fs) = IsWire cap f × AreWire cap fs
