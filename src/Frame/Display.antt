-- ===== src/Frame/Display.antt =====
-- redis-lib/src/frame.rs, the text of a frame (`fmt::Display`) and its comparison with a text
-- (`PartialEq<&str>`).
use redis_demo.Base.{Bool, true, false, Bytes, codes, [], ◌++◌, ◌is◌, if◌then◌else◌}
use redis_demo.Std.Utf8.{is_utf8}
use redis_demo.Std.Decimal.{to_decimal}
use redis_demo.Env.{Env}
use redis_demo.Frame.{Frame, Frames, simple, error, integer, bulk, null, array, nil, cons}

-- `first`: no element stands before, so no space does.
unfoldable mutual
  pub to_string : Env → Frame → Bytes
  to_string x (simple s) = s
  to_string x (error msg) = codes "error: " ++ msg
  to_string x (integer num) = to_decimal num
  to_string x (bulk bytes) = if is_utf8 bytes then bytes else x.debug_bytes bytes
  to_string x null = codes "(nil)"
  to_string x (array frames) = elements x true frames

  pub elements : Env → Bool → Frames → Bytes
  elements x first nil = []
  elements x first (cons frame frames) =
      (if first then [] else codes " ") ++ (to_string x frame ++ elements x false frames)

abbrev pub is_text : Frame → Bytes → Bool
is_text (simple s) other = s is other
is_text (bulk s) other = s is other
is_text frame other = false
