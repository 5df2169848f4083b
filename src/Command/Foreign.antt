-- ===== src/Command/Foreign.antt =====
-- A request with a name that the server does not know (redis-lib/src/cmd/mod.rs).
use redis_demo.Base.{◌≡◌, true, false, Bool, ◌||◌, Bytes, codes, ok, ◌is◌, arith}
use redis_demo.Std.Utf8.{is_utf8}
use redis_demo.Env.{Env}
use redis_demo.Parse
use redis_demo.Parse.{Parse, next, next_string}
use redis_demo.Frame.{Frames, array, bulk, cons}
use redis_demo.Command.{unknown}
use redis_demo.Command.Decode.{dispatch, from_frame}

-- The names of the commands.
abbrev pub is_known : Bytes → Bool
is_known name =
    name is codes "get"
    || (name is codes "publish"
        || (name is codes "set"
            || (name is codes "subscribe"
                || (name is codes "unsubscribe" || name is codes "ping"))))

dispatch-unknown :
    (x : Env) (name : Bytes) (p : Parse)
    → is_known name ≡ false
    → dispatch x name p ≡ ok (unknown (record { command_name = name }))
unfolding dispatch
dispatch-unknown x name p h = ground arith

-- A frame that begins with any other name is decoded as an unknown command of that name, in lower
-- case, whatever follows.
pub from_frame-unknown :
    (x : Env) (name : Bytes) (fs : Frames)
    → is_utf8 name ≡ true
    → is_known (x.to_lowercase name) ≡ false
    → from_frame x (array (cons (bulk name) fs))
      ≡ ok (unknown (record { command_name = x.to_lowercase name }))
unfolding from_frame Parse.new next_string next
from_frame-unknown x name fs text other = rw text (dispatch-unknown x (x.to_lowercase name) _ other)
