-- ===== src/Command/IntoFrame.antt =====
-- `Protocol::into_frame` of each command (redis-lib/src/cmd): the frame that the client sends.
use redis_demo.Base.{◌%◌, ◌^◌, Bytes, codes, List, [], ◌∷◌, Option, none, some}
use redis_demo.Frame.{Frame, Frames, array, nil, push_bulk, push_int}
use redis_demo.Command.{Get, Publish, Set, Subscribe, Unsubscribe, Ping, Duration, as_millis}

unfoldable pub get_frame : Get → Frame
get_frame c = array (push_bulk (push_bulk nil (codes "get")) c.key)

unfoldable pub publish_frame : Publish → Frame
publish_frame c =
    array (push_bulk (push_bulk (push_bulk nil (codes "publish")) c.channel) c.message)

-- `ms.as_millis() as u64`
abbrev pub push_expire : Frames → Option Duration → Frames
push_expire fs none = fs
push_expire fs (some d) = push_int (push_bulk fs (codes "px")) (as_millis d % 2 ^ 64)

unfoldable pub set_frame : Set → Frame
set_frame c =
    array (push_expire (push_bulk (push_bulk (push_bulk nil (codes "set")) c.key) c.value) c.expire)

-- `for channel in self.channels { frame.push_bulk(channel) }`
unfoldable pub push_channels : Frames → List Bytes → Frames
push_channels fs [] = fs
push_channels fs (s ∷ ss) = push_channels (push_bulk fs s) ss

unfoldable pub subscribe_frame : Subscribe → Frame
subscribe_frame c = array (push_channels (push_bulk nil (codes "subscribe")) c.channels)

unfoldable pub unsubscribe_frame : Unsubscribe → Frame
unsubscribe_frame c = array (push_channels (push_bulk nil (codes "unsubscribe")) c.channels)

abbrev pub push_echo : Frames → Option Bytes → Frames
push_echo fs none = fs
push_echo fs (some s) = push_bulk fs s

unfoldable pub ping_frame : Ping → Frame
ping_frame c = array (push_echo (push_bulk nil (codes "ping")) c.echo)
