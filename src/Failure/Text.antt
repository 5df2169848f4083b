-- ===== src/Failure/Text.antt =====
-- The texts of the errors: `Display` of `frame::Error` (redis-lib/src/frame.rs) and of `ParseError`
-- (redis-lib/src/parse.rs), `to_error` of a frame, and the texts that the other files give.
use redis_demo.Base.{Bytes, codes, ◌++◌}
use redis_demo.Std.Decimal.{to_decimal}
use redis_demo.Env.{Env}
use redis_demo.Frame
use redis_demo.Frame.{Frame, Fault, invalid_type, invalid_format}
use redis_demo.Frame.Display.{to_string}
use redis_demo.Parse.{
  ParseFault, ParseError, expected_array, expected_text, expected_int, invalid_string,
  invalid_number, expected_end, end_of_stream,
}
use redis_demo.Parse
use redis_demo.Failure.{
  Failure, frame, parse, io, reset_by_peer, reset_by_server, set_option, unsubscribe_unsupported,
  unexpected_frame, server_error, no_channels,
}

-- The byte is shown as a number.
abbrev pub fault_text : Fault → Bytes
fault_text (invalid_type byte) =
    codes "protocol error; invalid frame type byte `" ++ (to_decimal byte ++ codes "`")
fault_text invalid_format = codes "protocol error; invalid frame format"

-- `Display` of `frame::Error`
abbrev pub frame_text : Frame.Error → Bytes
frame_text Frame.incomplete = codes "stream ended early"
frame_text (Frame.other fault) = fault_text fault

-- `debug` is the derived `Debug` of frames.
module _ (debug : Frame → Bytes) where
  abbrev pub parse_fault_text : ParseFault → Bytes
  parse_fault_text (expected_array f) = codes "protocol error; expected array, got " ++ debug f
  parse_fault_text (expected_text f) =
      codes "protocol error; expected simple frame or bulk frame, got " ++ debug f
  parse_fault_text (expected_int f) = codes "protocol error; expected int frame but got " ++ debug f
  parse_fault_text invalid_string = codes "protocol error; invalid string"
  parse_fault_text invalid_number = codes "protocol error; invalid number"
  parse_fault_text expected_end = codes "protocol error; expected end of frame, but there was more"

  -- `Display` of `ParseError`
  abbrev pub parse_text : ParseError → Bytes
  parse_text end_of_stream = codes "protocol error; unexpected end of stream"
  parse_text (Parse.other fault) = parse_fault_text fault

-- `Frame::to_error`
abbrev pub to_error : Env → Frame → Bytes
to_error x f = codes "unexpected frame: " ++ to_string x f

-- `io_text` is the text of the `std::io::Error`.
module _ (x : Env) (debug : Frame → Bytes) (io_text : Bytes) where
  unfoldable pub text : Failure → Bytes
  text (frame e) = frame_text e
  text (parse e) = parse_text debug e
  text io = io_text
  text reset_by_peer = codes "connection reset by peer"
  text reset_by_server = codes "connection reset by server"
  text set_option = codes "currently `SET` only supports the expiration option"
  text unsubscribe_unsupported = codes "`Unsubscribe` is unsupported in this context"
  text (unexpected_frame f) = to_error x f
  text (server_error msg) = msg
  text no_channels = codes "channel(s) must be provided"
