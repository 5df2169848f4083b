-- ===== src/Frame/Decoder.antt =====
-- redis-lib/src/frame.rs, `Frame::check` and `Frame::parse`. Each call of either costs a unit of
-- fuel. A call reads a byte before it calls itself, so the fuel that `check` and `parse` give, one
-- more than the bytes there are, is enough.
mod Arms
pub mod RoundTrip
pub mod Agreement
pub mod Progress
pub mod Ending
pub mod Extension
pub mod Prefix
pub mod Calm
pub mod Safety
pub mod Weights
pub mod Size
use redis_demo.Base.{
  ◌is◌, ℕ, zero, suc, ◌+◌, ◌-◌, Bool, [], ◌∷◌, Bytes, codes, ltb, ◌==◌, if◌then◌else◌, length, take,
  Outcome, ok, err, panic, out_of_fuel, ◌>>=◌, true, false, ◌&&◌,
}
use redis_demo.Std.Utf8.{is_utf8}
use redis_demo.Env.{Env, Cursor}
use redis_demo.Frame.{
  Frame, Frames, Error, simple, error, integer, bulk, null, array, nil, cons, incomplete, other,
  invalid_type, invalid_format,
}
use redis_demo.Frame.Reader.{get_line, add_usize, peek_u8, get_u8, skip, get_decimal}

-- `for _ in 0..n { step(src)?; }`
unfoldable pub repeat : ℕ → (Cursor → Outcome Error Cursor) → Cursor → Outcome Error Cursor
repeat zero step c = ok c
repeat (suc n) step c = do c' ← step c; repeat n step c'

-- `for _ in 0..n { out.push(step(src)?); }`
unfoldable pub collect :
    ℕ → (Cursor → Outcome Error (Frame × Cursor)) → Cursor → Outcome Error (Frames × Cursor)
collect zero step c = ok (nil, c)
collect (suc n) step c = do (f, c') ← step c; (fs, c'') ← collect n step c'; ok (cons f fs, c'')

abbrev pub text_frame : (Bytes → Frame) → Bytes → Cursor → Outcome Error (Frame × Cursor)
text_frame tag line c = if is_utf8 line then ok (tag line, c) else err (other invalid_format)

-- `src.chunk()[..n]`, which panics if there are fewer than `n` bytes.
unfoldable pub front : ℕ → Bytes → Outcome Error Bytes
front n s = if ltb (length s) n then panic else ok (take n s)

-- The line behind `$-` stands for a null.
abbrev pub null_frame : Bytes → Cursor → Outcome Error (Frame × Cursor)
null_frame line c = if line is codes "-1" then ok (null, c) else err (other invalid_format)

unfoldable pub parse_null : Cursor → Outcome Error (Frame × Cursor)
parse_null c = do (line, c') ← get_line c; null_frame line c'

module _ (x : Env) where
  unfoldable pub check_bulk : Cursor → Outcome Error Cursor
  check_bulk c = do (n, c') ← get_decimal x c; total ← add_usize x n 2; skip x c' total

  unfoldable pub check_array : (Cursor → Outcome Error Cursor) → Cursor → Outcome Error Cursor
  check_array again c = do (n, c') ← get_decimal x c; repeat n again c'

  -- The arm of the match on the type byte, given the call for an element of an array.
  unfoldable pub check_arm : (Cursor → Outcome Error Cursor) → ℕ → Cursor → Outcome Error Cursor
  check_arm again b c =
      if b == b'+'
      then (do (_, c') ← get_line c; ok c')
      else if b == b'-'
      then (do (_, c') ← get_line c; ok c')
      else if b == b':'
      then (do (_, c') ← get_decimal x c; ok c')
      else if b == b'$'
      then (do p ← peek_u8 x c; if p == b'-' then skip x c 4 else check_bulk c)
      else if b == b'*'
      then check_array again c
      else err (other (invalid_type b))

  unfoldable pub check_fuel : ℕ → Cursor → Outcome Error Cursor
  check_fuel zero c = out_of_fuel
  check_fuel (suc k) c = do (b, c') ← get_u8 x c; check_arm (check_fuel k) b c'

  -- `Frame::check`
  unfoldable pub check : Cursor → Outcome Error Cursor
  check c = check_fuel (suc (length c.get_ref)) c

  unfoldable pub parse_bulk : Cursor → Outcome Error (Frame × Cursor)
  parse_bulk c = do
    (n, c') ← get_decimal x c
    total ← add_usize x n 2
    if ltb (x.remaining c') total
        then err incomplete
        else (do bytes ← front n (x.chunk c'); c'' ← skip x c' total; ok (bulk bytes, c''))

  -- `Vec::with_capacity(n)` panics if the capacity is too large.
  unfoldable pub parse_array :
      (Cursor → Outcome Error (Frame × Cursor)) → Cursor → Outcome Error (Frame × Cursor)
  parse_array again c = do
    (n, c') ← get_decimal x c
    if ltb x.max_capacity n then panic else (do (fs, c'') ← collect n again c'; ok (array fs, c''))

  unfoldable pub parse_arm :
      (Cursor → Outcome Error (Frame × Cursor)) → ℕ → Cursor → Outcome Error (Frame × Cursor)
  parse_arm again b c =
      if b == b'+'
      then (do (line, c') ← get_line c; text_frame simple line c')
      else if b == b'-'
      then (do (line, c') ← get_line c; text_frame error line c')
      else if b == b':'
      then (do (n, c') ← get_decimal x c; ok (integer n, c'))
      else if b == b'$'
      then (do p ← peek_u8 x c; if p == b'-' then parse_null c else parse_bulk c)
      else if b == b'*'
      then parse_array again c
      else panic

  unfoldable pub parse_fuel : ℕ → Cursor → Outcome Error (Frame × Cursor)
  parse_fuel zero c = out_of_fuel
  parse_fuel (suc k) c = do (b, c') ← get_u8 x c; parse_arm (parse_fuel k) b c'

  -- `Frame::parse`
  unfoldable pub parse : Cursor → Outcome Error (Frame × Cursor)
  parse c = parse_fuel (suc (length c.get_ref)) c
