-- ===== src/Db/Task.antt =====
-- `purge_expired_tasks` (redis-lib/src/db.rs), the background task, beside the operations of the
-- connections. A step is what runs under one lock, the drop of a receiver,
-- or a wake-up of the task.
pub mod Watch
pub mod Wakes
pub mod Alive
pub mod Expires
use redis_demo.Base.{ℕ, zero, suc, ◌≤◌, ◌≡◌, Bool, true, false, ◌||◌, Bytes, Option, none, some}
use redis_demo.Std.BTreeSet.{Instant}
use redis_demo.Env.{Env}
use redis_demo.Command.{Duration}
use redis_demo.Db
use redis_demo.Db.{Shared, Broadcast}

-- Where the task stands: before the test of its loop, before the purge, in a wait for a
-- notification and for an instant if there is one, or past its end. A panic ends it too.
pub data Task : Type 0 where
  looking purging finished : Task
  waiting : Option Instant → Task

-- `permit`: a call of `notify_one` that no wait has consumed yet; `Notify` keeps one.
pub record World (T : Type 0) : Type 0 where
  pub db : Shared T
  pub task : Task
  pub permit : Bool

-- `while !shared.is_shutdown()`
abbrev pub after_look : Option Bool → Task
after_look none = finished
after_look (some true) = finished
after_look (some false) = purging

-- what the task waits for after `purge_expired_keys`
abbrev pub after_purge : Option (Option Instant) → Task
after_purge none = finished
after_purge (some when) = waiting when

-- whether `set` calls `notify_one`
abbrev pub notifies : Option Bool → Bool
notifies none = false
notifies (some notify) = notify

-- whether the guard's `drop` comes to its call of `notify_one`
abbrev pub returns {ℓ} : {A : Type ℓ} → Option A → Bool
returns none = false
returns (some a) = true

abbrev pub start : {T : Type 0} → World T
start = record { db = Db.new; task = looking; permit = false }

pub data Moves {T R : Type 0} (x : Env) (b : Broadcast T R) (s : World T) : World T → Type 0 where
  sets :
      (now : Instant) (key value : Bytes) (expire : Option Duration)
      → Moves x b s (record {
        db = (Db.set x now key value expire s.db).1;
        task = s.task;
        permit = s.permit || notifies (Db.set x now key value expire s.db).0;
      })
  gets :
      (key : Bytes)
      → Moves x b s (record { db = (Db.get key s.db).1; task = s.task; permit = s.permit })
  subscribes :
      (key : Bytes)
      → Moves x b s (record { db = (Db.subscribe b key s.db).1; task = s.task; permit = s.permit })
  publishes :
      (key value : Bytes)
      → Moves x b s
          (record { db = (Db.publish b key value s.db).1; task = s.task; permit = s.permit })
  -- a receiver is dropped
  leaves :
      (key : Bytes)
      → Moves x b s (record { db = Db.release b key s.db; task = s.task; permit = s.permit })
  drops : Moves x b s (record {
    db = (Db.drop_guard s.db).1;
    task = s.task;
    permit = s.permit || returns (Db.drop_guard s.db).0;
  })
  looks :
      s.task ≡ looking
      → Moves x b s (record {
        db = (Db.is_shutdown s.db).1;
        task = after_look (Db.is_shutdown s.db).0;
        permit = s.permit;
      })
  purges :
      (now : Instant)
      → s.task ≡ purging
      → Moves x b s (record {
        db = (Db.purge_expired_keys now s.db).1;
        task = after_purge (Db.purge_expired_keys now s.db).0;
        permit = s.permit;
      })
  -- the instant has come
  wakes :
      (now w : Instant)
      → s.task ≡ waiting (some w)
      → w ≤ now
      → Moves x b s (record { db = s.db; task = looking; permit = s.permit })
  -- the notification has come
  hears :
      (when : Option Instant)
      → s.task ≡ waiting when
      → s.permit ≡ true
      → Moves x b s (record { db = s.db; task = looking; permit = false })

-- The worlds that any sequence of such steps reaches.
pub data Reaches {T R : Type 0} (x : Env) (b : Broadcast T R) : World T → Type 0 where
  begin : Reaches x b start
  step : {s s' : World T} → Reaches x b s → Moves x b s s' → Reaches x b s'

-- The steps that the task itself takes at the instant `now`.
abbrev pub IsOwn :
    {T R : Type 0} {x : Env} {b : Broadcast T R} {s s' : World T}
    → Instant
    → Moves x b s s'
    → Type 0
IsOwn now (sets t key value expire) = ⊥
IsOwn now (gets key) = ⊥
IsOwn now (subscribes key) = ⊥
IsOwn now (publishes key value) = ⊥
IsOwn now drops = ⊥
IsOwn now (leaves key) = ⊥
IsOwn now (looks e) = Unit
IsOwn now (purges t e) = t ≡ now
IsOwn now (wakes t w e le) = t ≡ now
IsOwn now (hears when e p) = Unit

-- The world after so many of them.
pub data Works {T R : Type 0} (x : Env) (b : Broadcast T R) (now : Instant) (s : World T)
    : ℕ → World T → Type 0 where
  rests : Works x b now s zero s
  works :
      {n : ℕ} {s' s'' : World T}
      → Works x b now s n s'
      → (m : Moves x b s' s'') → IsOwn now m
      → Works x b now s (suc n) s''
