-- ===== src/Command/Decode.antt =====
-- `parse_frames` of each command and `Command::from_frame` (redis-lib/src/cmd).
use redis_demo.Base.{
  ℕ, zero, suc, Bytes, codes, List, [], ◌∷◌, ◌++◌, Option, none, some, ◌is◌, if◌then◌else◌, Outcome,
  ok, err, panic, out_of_fuel, ◌>>=◌, map_err,
}
use redis_demo.Env.{Env}
use redis_demo.Frame.{Frame, len}
use redis_demo.Parse
use redis_demo.Parse.{
  Parse, ParseError, end_of_stream, other, next_string, next_bytes, next_int, check_done,
}
use redis_demo.Failure.{Failure, parse, set_option}
use redis_demo.Command.{
  Command, Get, Publish, Set, Subscribe, Unsubscribe, Ping, Duration, from_secs, from_millis, get,
  publish, set, subscribe, unsubscribe, ping, unknown, new_ping, default_ping, new_unknown,
}

-- `?` on the result of a `Parse` method, in a function that returns `crate::Result`.
abbrev pub lift {ℓ} : {A : Type ℓ} → Outcome ParseError A → Outcome Failure A
lift = map_err parse

unfoldable pub get_parse : Parse → Outcome Failure (Get × Parse)
get_parse p = do (key, p') ← lift (next_string p); ok (record { key = key }, p')

unfoldable pub publish_parse : Parse → Outcome Failure (Publish × Parse)
publish_parse p = do
  (channel, p') ← lift (next_string p)
  (message, p'') ← lift (next_bytes p')
  ok (record { channel = channel; message = message }, p'')

-- The match on the word behind the value; `p` is the state before it was read.
unfoldable pub expire_parse :
    Env → Parse → Outcome ParseError (Bytes × Parse) → Outcome Failure (Option Duration × Parse)
expire_parse x p (ok (s, p')) =
    if x.to_uppercase s is codes "EX"
    then (do (secs, p'') ← lift (next_int x p'); ok (some (from_secs secs), p''))
    else if x.to_uppercase s is codes "PX"
    then (do (ms, p'') ← lift (next_int x p'); ok (some (from_millis ms), p''))
    else err set_option
expire_parse x p (err end_of_stream) = ok (none, p)
expire_parse x p (err (other e)) = err (parse (other e))
expire_parse x p panic = panic
expire_parse x p out_of_fuel = out_of_fuel

unfoldable pub set_parse : Env → Parse → Outcome Failure (Set × Parse)
set_parse x p = do
  (key, p₁) ← lift (next_string p)
  (value, p₂) ← lift (next_bytes p₁)
  (expire, p₃) ← expire_parse x p₂ (next_string p₂)
  ok (record { key = key; value = value; expire = expire }, p₃)

-- `loop { match parse.next_string() { … } }`: a round takes a frame or ends the loop.
unfoldable pub channels_loop : ℕ → List Bytes → Parse → Outcome ParseError (List Bytes × Parse)
channels_loop zero channels p = out_of_fuel
channels_loop (suc k) channels p = elim (next_string p) [
  | ok (s, p') ↦ channels_loop k (channels ++ s ∷ []) p'
  | err end_of_stream ↦ ok (channels, p)
  | err (other e) ↦ err (other e)
  | panic ↦ panic
  | out_of_fuel ↦ out_of_fuel
]

-- One round for each frame that is left, and one for the end.
abbrev pub channels_from : List Bytes → Parse → Outcome ParseError (List Bytes × Parse)
channels_from channels p = channels_loop (suc (len p.frames)) channels p

unfoldable pub subscribe_parse : Parse → Outcome Failure (Subscribe × Parse)
subscribe_parse p = do
  (first, p') ← lift (next_string p)
  (channels, p'') ← lift (channels_from (first ∷ []) p')
  ok (record { channels = channels }, p'')

unfoldable pub unsubscribe_parse : Parse → Outcome Failure (Unsubscribe × Parse)
unsubscribe_parse p = do
  (channels, p') ← lift (channels_from [] p)
  ok (record { channels = channels }, p')

abbrev pub ping_of : Parse → Outcome ParseError (Bytes × Parse) → Outcome Failure (Ping × Parse)
ping_of p (ok (s, p')) = ok (new_ping (some s), p')
ping_of p (err end_of_stream) = ok (default_ping, p)
ping_of p (err (other e)) = err (parse (other e))
ping_of p panic = panic
ping_of p out_of_fuel = out_of_fuel

unfoldable pub ping_parse : Parse → Outcome Failure (Ping × Parse)
ping_parse p = ping_of p (next_bytes p)

-- `parse.check_done()?; Ok(command)`
abbrev pub finish {ℓ} :
    {A : Type ℓ} → (A → Command) → Outcome Failure (A × Parse) → Outcome Failure Command
finish tag r = do (c, p) ← r; _ ← lift (check_done p); ok (tag c)

-- The match on the name, in lower case.
unfoldable pub dispatch : Env → Bytes → Parse → Outcome Failure Command
dispatch x name p =
    if name is codes "get"
    then finish get (get_parse p)
    else if name is codes "publish"
    then finish publish (publish_parse p)
    else if name is codes "set"
    then finish set (set_parse x p)
    else if name is codes "subscribe"
    then finish subscribe (subscribe_parse p)
    else if name is codes "unsubscribe"
    then finish unsubscribe (unsubscribe_parse p)
    else if name is codes "ping"
    then finish ping (ping_parse p)
    else ok (unknown (new_unknown name))

unfoldable pub from_frame : Env → Frame → Outcome Failure Command
from_frame x f = do
  p ← lift (Parse.new f)
  (name, p') ← lift (next_string p)
  dispatch x (x.to_lowercase name) p'
