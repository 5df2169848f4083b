-- ===== src/Command.antt =====
-- redis-lib/src/cmd: the commands, and the frames that the client sends for them.
pub mod IntoFrame
pub mod Decode
pub mod RoundTrip
pub mod Flat
pub mod Ending
pub mod Foreign
use redis_demo.Base.{ℕ, ◌*◌, ◌/◌, Bytes, codes, List, Option, none}

-- `std::time::Duration`, in nanoseconds.
abbrev pub Duration : Type 0
Duration = ℕ

abbrev pub from_secs : ℕ → Duration
from_secs n = n * 1_000_000_000

abbrev pub from_millis : ℕ → Duration
from_millis n = n * 1_000_000

abbrev pub as_millis : Duration → ℕ
as_millis d = d / 1_000_000

pub record Get : Type 0 where
  pub key : Bytes

pub record Publish : Type 0 where
  pub channel : Bytes
  pub message : Bytes

pub record Set : Type 0 where
  pub key : Bytes
  pub value : Bytes
  pub expire : Option Duration

pub record Subscribe : Type 0 where
  pub channels : List Bytes

pub record Unsubscribe : Type 0 where
  pub channels : List Bytes

pub record Ping : Type 0 where
  pub echo : Option Bytes

pub record Unknown : Type 0 where
  pub command_name : Bytes

pub data Command : Type 0 where
  get : Get → Command
  publish : Publish → Command
  set : Set → Command
  subscribe : Subscribe → Command
  unsubscribe : Unsubscribe → Command
  ping : Ping → Command
  unknown : Unknown → Command

-- `new` of each command
abbrev pub new_get : Bytes → Get
new_get key = record { key = key }

abbrev pub new_publish : Bytes → Bytes → Publish
new_publish channel message = record { channel = channel; message = message }

abbrev pub new_set : Bytes → Bytes → Option Duration → Set
new_set key value expire = record { key = key; value = value; expire = expire }

abbrev pub new_subscribe : List Bytes → Subscribe
new_subscribe channels = record { channels = channels }

abbrev pub new_unsubscribe : List Bytes → Unsubscribe
new_unsubscribe channels = record { channels = channels }

abbrev pub new_ping : Option Bytes → Ping
new_ping echo = record { echo = echo }

-- `Ping::default`
abbrev pub default_ping : Ping
default_ping = record { echo = none }

abbrev pub new_unknown : Bytes → Unknown
new_unknown key = record { command_name = key }

-- `Command::get_name`
unfoldable pub get_name : Command → Bytes
get_name (get c) = codes "get"
get_name (publish c) = codes "pub"
get_name (set c) = codes "set"
get_name (subscribe c) = codes "subscribe"
get_name (unsubscribe c) = codes "unsubscribe"
get_name (ping c) = codes "ping"
get_name (unknown c) = c.command_name
