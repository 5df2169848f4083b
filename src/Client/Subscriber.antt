-- ===== src/Client/Subscriber.antt =====
-- `Client::subscribe` and `Subscriber` (redis-lib/src/clients/client.rs). Where a call fails, what it
-- leaves of the subscriber is not modelled.
pub mod Confirms
pub mod Receives
pub mod Leaves
use redis_demo.Base.{
  ℕ, zero, suc, ◌-◌, Bool, true, false, not, ◌&&◌, Bytes, codes, List, [], ◌∷◌, ◌++◌, Option, none,
  some, ◌is◌, ◌==◌, if◌then◌else◌, length, Outcome, ok, err, ◌>>=◌,
}
use redis_demo.Env.{Env}
use redis_demo.Frame.{Frame, array, nil, cons}
use redis_demo.Frame.Display.{to_string, is_text}
use redis_demo.Failure.{Failure, unexpected_frame}
use redis_demo.Command.{new_subscribe, new_unsubscribe}
use redis_demo.Command.IntoFrame.{subscribe_frame, unsubscribe_frame}
use redis_demo.Connection.{Stream, Connection}
use redis_demo.Connection.Write.{write_frame}
use redis_demo.Connection.Read.{read_frame}
use redis_demo.Client.{read_response}

pub record Subscriber (S : Type 0) : Type 0 where
  pub client : Connection S
  pub subscribed_channels : List Bytes

-- `Subscriber::get_subscribed`
abbrev pub get_subscribed : {S : Type 0} → Subscriber S → List Bytes
get_subscribed s = s.subscribed_channels

pub record Message : Type 0 where
  pub channel : Bytes
  pub content : Bytes

-- `[subscribe, channel_name, ..] if …`
abbrev pub confirmed : Bytes → Frame → Outcome Failure (Unit {0})
confirmed channel (array (cons subscribe (cons channel_name frames))) =
    if is_text subscribe (codes "subscribe") && is_text channel_name channel
    then ok tt
    else err (unexpected_frame (array (cons subscribe (cons channel_name frames))))
confirmed channel other = err (unexpected_frame other)

-- `[message, channel, content] if …`
abbrev pub message_of : Env → Frame → Outcome Failure (Option Message)
message_of x (array (cons message (cons channel (cons content nil)))) =
    if is_text message (codes "message")
    then ok (some (record { channel = to_string x channel; content = to_string x content }))
    else err (unexpected_frame (array (cons message (cons channel (cons content nil)))))
message_of x other = err (unexpected_frame other)

-- `retain(|c| *channel != &c)`
abbrev pub retain : Frame → List Bytes → List Bytes
retain channel [] = []
retain channel (c ∷ cs) =
    let rest = retain channel cs in if is_text channel c then rest else c ∷ rest

-- `[unsubscribe, channel, ..] if …`; exactly one channel is to go.
abbrev pub dropped : List Bytes → Frame → Outcome Failure (List Bytes)
dropped subscribed (array (cons unsubscribe (cons channel frames))) =
    if is_text unsubscribe (codes "unsubscribe")
    then if length subscribed == 0
      then err (unexpected_frame (array (cons unsubscribe (cons channel frames))))
      else if length (retain channel subscribed) == length subscribed - 1
      then ok (retain channel subscribed)
      else err (unexpected_frame (array (cons unsubscribe (cons channel frames))))
    else err (unexpected_frame (array (cons unsubscribe (cons channel frames))))
dropped subscribed other = err (unexpected_frame other)

-- No channels stand for all channels.
abbrev pub how_many : List Bytes → List Bytes → ℕ
how_many [] subscribed = length subscribed
how_many (k ∷ ks) subscribed = length (k ∷ ks)

module _ {S : Type 0} (x : Env) (t : Stream S) where
  -- `for channel in channels { … }`
  unfoldable pub confirm_each : List Bytes → Connection S → Outcome Failure (Connection S)
  confirm_each [] c = ok c
  confirm_each (channel ∷ channels) c = do
    (resp_frame, c') ← read_response x t c
    _ ← confirmed channel resp_frame
    confirm_each channels c'

  -- `Client::do_subscribe`
  unfoldable pub do_subscribe : List Bytes → Connection S → Outcome Failure (Connection S)
  do_subscribe channels c = do
    c' ← write_frame t c (subscribe_frame (new_subscribe channels))
    confirm_each channels c'

  -- `Client::subscribe`
  unfoldable pub into_subscriber : List Bytes → Connection S → Outcome Failure (Subscriber S)
  into_subscriber channels c = do
    c' ← do_subscribe channels c
    ok (record { client = c'; subscribed_channels = channels })

  abbrev pub message_in :
      Subscriber S → Option Frame × Connection S → Outcome Failure (Option Message × Subscriber S)
  message_in s (none, c) =
      ok (none, record { client = c; subscribed_channels = s.subscribed_channels })
  message_in s (some frame, c) = do
    m ← message_of x frame
    ok (m, record { client = c; subscribed_channels = s.subscribed_channels })

  -- `Subscriber::next_message`
  unfoldable pub next_message : Subscriber S → Outcome Failure (Option Message × Subscriber S)
  next_message s = do r ← read_frame x t s.client; message_in s r

  -- `Subscriber::subscribe`
  unfoldable pub subscribe_more : List Bytes → Subscriber S → Outcome Failure (Subscriber S)
  subscribe_more channels s = do
    c ← do_subscribe channels s.client
    ok (record { client = c; subscribed_channels = s.subscribed_channels ++ channels })

  -- `for _ in 0..num { … }`
  unfoldable pub drop_each : ℕ → List Bytes → Connection S → Outcome Failure (Subscriber S)
  drop_each zero subscribed c = ok (record { client = c; subscribed_channels = subscribed })
  drop_each (suc num) subscribed c = do
    (resp_frame, c') ← read_response x t c
    subscribed' ← dropped subscribed resp_frame
    drop_each num subscribed' c'

  -- `Subscriber::unsubscribe`
  unfoldable pub unsubscribe : List Bytes → Subscriber S → Outcome Failure (Subscriber S)
  unsubscribe channels s = do
    c ← write_frame t s.client (unsubscribe_frame (new_unsubscribe channels))
    drop_each (how_many channels s.subscribed_channels) s.subscribed_channels c
