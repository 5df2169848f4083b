-- ===== src/Parse.antt =====
-- redis-lib/src/parse.rs: `Parse` walks over the frames of an array frame.
use redis_demo.Base.{ℕ, Bytes, Option, none, some, Outcome, ok, err, ◌>>=◌, if◌then◌else◌}
use redis_demo.Std.Utf8.{is_utf8}
use redis_demo.Env.{Env}
use redis_demo.Frame.{Frame, Frames, simple, integer, bulk, array, nil, cons}

pub record Parse : Type 0 where
  pub frames : Frames

-- The texts of the errors, with the frame that some of them print.
pub data ParseFault : Type 0 where
  expected_array : Frame → ParseFault
  expected_text : Frame → ParseFault
  expected_int : Frame → ParseFault
  invalid_string : ParseFault
  invalid_number : ParseFault
  expected_end : ParseFault

pub data ParseError : Type 0 where
  end_of_stream : ParseError
  other : ParseFault → ParseError

unfoldable pub new : Frame → Outcome ParseError Parse
new (array fs) = ok (record { frames = fs })
new f = err (other (expected_array f))

-- `self.frames.next()`
abbrev pub next_frame : Frames → Option Frame × Parse
next_frame nil = (none, record { frames = nil })
next_frame (cons f fs) = (some f, record { frames = fs })

abbrev pub some_frame : Option Frame × Parse → Outcome ParseError (Frame × Parse)
some_frame (none, p) = err end_of_stream
some_frame (some f, p) = ok (f, p)

unfoldable pub next : Parse → Outcome ParseError (Frame × Parse)
next p = some_frame (next_frame p.frames)

abbrev pub string_of : Frame → Outcome ParseError Bytes
string_of (simple s) = ok s
string_of (bulk s) = if is_utf8 s then ok s else err (other invalid_string)
string_of f = err (other (expected_text f))

unfoldable pub next_string : Parse → Outcome ParseError (Bytes × Parse)
unfolding next
next_string p = do (f, p') ← next p; s ← string_of f; ok (s, p')

abbrev pub bytes_of : Frame → Outcome ParseError Bytes
bytes_of (simple s) = ok s
bytes_of (bulk s) = ok s
bytes_of f = err (other (expected_text f))

unfoldable pub next_bytes : Parse → Outcome ParseError (Bytes × Parse)
unfolding next
next_bytes p = do (f, p') ← next p; s ← bytes_of f; ok (s, p')

abbrev pub number_of : Option ℕ → Outcome ParseError ℕ
number_of none = err (other invalid_number)
number_of (some n) = ok n

abbrev pub int_of : Env → Frame → Outcome ParseError ℕ
int_of x (integer n) = ok n
int_of x (simple s) = number_of (x.atoi s)
int_of x (bulk s) = number_of (x.atoi s)
int_of x f = err (other (expected_int f))

unfoldable pub next_int : Env → Parse → Outcome ParseError (ℕ × Parse)
unfolding next
next_int x p = do (f, p') ← next p; n ← int_of x f; ok (n, p')

abbrev pub none_left : Option Frame × Parse → Outcome ParseError Parse
none_left (none, p) = ok p
none_left (some f, p) = err (other expected_end)

unfoldable pub check_done : Parse → Outcome ParseError Parse
check_done p = none_left (next_frame p.frames)
