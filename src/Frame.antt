-- ===== src/Frame.antt =====
-- redis-lib/src/frame.rs: the frames of the Redis protocol and the errors of their decoder.
pub mod Reader
pub mod Wire
pub mod Decoder
pub mod Display
use redis_demo.Base.{ℕ, suc, ◌+◌, ◌≡◌, Bytes, List, [], ◌∷◌, ◌^◌, ◌<◌, true, length}
use redis_demo.Std.Utf8.{is_utf8}

-- `Frames` is `Vec<Frame>`.
mutual
  pub data Frame : Type 0 where
    simple : Bytes → Frame
    error : Bytes → Frame
    integer : ℕ → Frame
    bulk : Bytes → Frame
    null : Frame
    array : Frames → Frame

  pub data Frames : Type 0 where
    nil : Frames
    cons : Frame → Frames → Frames

-- The texts of the errors that the decoder makes.
pub data Fault : Type 0 where
  -- "protocol error; invalid frame type byte"
  invalid_type : ℕ → Fault
  -- "protocol error; invalid frame format"
  invalid_format : Fault

pub data Error : Type 0 where
  incomplete : Error
  other : Fault → Error

-- `Vec::len`, and `Vec::push` as `push_bulk` and `push_int` use it.
abbrev pub len : Frames → ℕ
len nil = 0
len (cons f fs) = suc (len fs)

abbrev pub push : Frames → Frame → Frames
push nil g = cons g nil
push (cons f fs) g = cons f (push fs g)

abbrev pub push_bulk : Frames → Bytes → Frames
push_bulk fs s = push fs (bulk s)

abbrev pub push_int : Frames → ℕ → Frames
push_int fs n = push fs (integer n)
