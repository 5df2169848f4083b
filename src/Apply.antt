-- ===== src/Apply.antt =====
-- `apply` of `Get`, `Set`, `Publish`, `Ping` and `Unknown` (redis-lib/src/cmd): what the server does
-- for a command. The database is there after every run, also after one that fails.
pub mod Replies
use redis_demo.Base.{ℕ, ◌++◌, Bytes, codes, Option, none, some, Outcome, ok, err, panic}
use redis_demo.Std.BTreeSet.{Instant}
use redis_demo.Env.{Env}
use redis_demo.Frame.{Frame, simple, error, integer, bulk, null}
use redis_demo.Failure.{Failure}
use redis_demo.Command.{Get, Set, Publish, Ping, Unknown}
use redis_demo.Db
use redis_demo.Db.{Shared, Broadcast}
use redis_demo.Connection.{Stream, Connection}
use redis_demo.Connection.Write.{write_frame}

-- The frame of a value that is there or not.
abbrev pub value_frame : Option Bytes → Frame
value_frame (some value) = bulk value
value_frame none = null

abbrev pub pong : Option Bytes → Frame
pong none = simple (codes "PONG")
pong (some bytes) = bulk bytes

module _ {S : Type 0} (t : Stream S) where
  -- The frame is written once the operation of the database has returned; `none` is its panic.
  abbrev pub respond {ℓ} :
      {A : Type ℓ} → (A → Frame) → Option A → Connection S → Outcome Failure (Connection S)
  respond frame_of none dst = panic
  respond frame_of (some a) dst = write_frame t dst (frame_of a)

  -- `Get::apply`
  unfoldable pub get_apply :
      {T : Type 0} → Get → Shared T → Connection S → Outcome Failure (Connection S) × Shared T
  get_apply c db dst = let (value, db') = Db.get c.key db in (respond value_frame value dst, db')

  -- `Set::apply` at the instant `now`
  unfoldable pub set_apply :
      {T : Type 0}
      → Env
      → Instant
      → Set
      → Shared T
      → Connection S
      → Outcome Failure (Connection S) × Shared T
  set_apply x now c db dst =
      let (notify, db') = Db.set x now c.key c.value c.expire db in
      (respond (λ _. simple (codes "OK")) notify dst, db')

  -- `Publish::apply`
  unfoldable pub publish_apply :
      {T R : Type 0}
      → Broadcast T R
      → Publish
      → Shared T
      → Connection S
      → Outcome Failure (Connection S) × Shared T
  publish_apply b c db dst =
      let (n_subscribers, db') = Db.publish b c.channel c.message db in
      (respond integer n_subscribers dst, db')

  -- `Ping::apply`
  unfoldable pub ping_apply : Ping → Connection S → Outcome Failure (Connection S)
  ping_apply c dst = write_frame t dst (pong c.echo)

  -- `Unknown::apply`
  unfoldable pub unknown_apply : Unknown → Connection S → Outcome Failure (Connection S)
  unknown_apply c dst =
      write_frame t dst (error (codes "ERR unknown command '" ++ (c.command_name ++ codes "'")))
