-- ===== src/Db/Spec.antt =====
-- What the database (redis-lib/src/db.rs) promises, as operations on a plain map from keys to entries
-- and a count of receivers for each channel.
pub mod Kept
pub mod Refines
use redis_demo.Base.{
  ℕ, ◌+◌, ◌-◌, Bool, Bytes, List, [], ◌∷◌, Option, none, some, ◌is◌, if◌then◌else◌, ltb, true,
  false,
}
use redis_demo.Std.HashMap
use redis_demo.Std.BTreeSet.{Instant}
use redis_demo.Env.{Env}
use redis_demo.Command.{Duration}
use redis_demo.Db
use redis_demo.Db.{Entry, Shared, Broadcast, bytes_of}
use redis_demo.Db.Purge.{keep_live}
use redis_demo.Db.PubSub.{listeners}

-- An operation of the database, or the drop of a receiver of a channel; where there is none, nothing
-- changes.
pub data Call : Type 0 where
  sets : Instant → Bytes → Bytes → Option Duration → Call
  gets : Bytes → Call
  subscribes : Bytes → Call
  publishes : Bytes → Bytes → Call
  purges : Instant → Call
  leaves : Bytes → Call

-- What a caller is told: nothing, a value or none, or a number of receivers.
pub data Reply : Type 0 where
  done : Reply
  found : Option Bytes → Reply
  reached : ℕ → Reply

pub record Spec : Type 0 where
  pub values : Bytes → Option Entry
  pub receivers : Bytes → ℕ

abbrev pub nothing : Spec
nothing = record { values = λ j. none; receivers = λ j. 0 }

abbrev pub instant : Instant → Option Duration → Option Instant
instant now none = none
instant now (some d) = some (now + d)

abbrev pub entry : Bytes → Option Instant → Entry
entry value when = record { bytes = value; expires_at = when }

-- The promise.
abbrev pub answer : Call → Spec → Reply × Spec
answer (sets now key value expire) m = (
  done,
  record {
    values = λ j. if key is j then some (entry value (instant now expire)) else m.values j;
    receivers = m.receivers;
  },
)
answer (gets key) m = (found (bytes_of (m.values key)), m)
answer (subscribes key) m = (
  done,
  record { values = m.values; receivers = λ j. m.receivers j + (if key is j then 1 else 0) },
)
answer (publishes key value) m = (reached (m.receivers key), m)
answer (purges now) m =
    (done, record { values = λ j. keep_live now (m.values j); receivers = m.receivers })
answer (leaves key) m = (
  done,
  record { values = m.values; receivers = λ j. m.receivers j - (if key is j then 1 else 0) },
)

-- Does the platform hold the instant at which the entry expires?
abbrev pub fits : Env → Call → Bool
fits x (sets now key value (some d)) = if ltb x.max_instant (now + d) then false else true
fits x _ = true

-- The calls before the first that does not fit.
abbrev pub fitting : Env → List Call → List Call
fitting x [] = []
fitting x (call ∷ calls) = let rest = fitting x calls in if fits x call then call ∷ rest else []

abbrev pub answers : List Call → Spec → List Reply
answers [] m = []
answers (call ∷ calls) m = (answer call m).0 ∷ answers calls (answer call m).1

abbrev pub told {ℓ} :
    {A : Type ℓ} {T : Type 0} → (A → Reply) → Option A × Shared T → Option Reply × Shared T
told reply (none, sh) = (none, sh)
told reply (some a, sh) = (some (reply a), sh)

module _ {T R : Type 0} (x : Env) (b : Broadcast T R) where
  -- The operations of the database; none for a panic.
  abbrev pub execute : Call → Shared T → Option Reply × Shared T
  execute (sets now key value expire) sh = told (λ _. done) (Db.set x now key value expire sh)
  execute (gets key) sh = told found (Db.get key sh)
  execute (subscribes key) sh = told (λ _. done) (Db.subscribe b key sh)
  execute (publishes key value) sh = told reached (Db.publish b key value sh)
  execute (purges now) sh = told (λ _. done) (Db.purge_expired_keys now sh)
  execute (leaves key) sh = (some done, Db.release b key sh)

  -- The replies of the calls, one after the other, up to the first panic.
  abbrev pub up_to_panic : Option Reply → List Reply → List Reply
  up_to_panic none rest = []
  up_to_panic (some r) rest = r ∷ rest

  abbrev pub replies : List Call → Shared T → List Reply
  replies [] sh = []
  replies (call ∷ calls) sh = up_to_panic (execute call sh).0 (replies calls (execute call sh).1)

  -- The database as such a map.
  abbrev pub view : Shared T → Spec
  view sh = record {
    values = λ j. HashMap.lookup j sh.state.entries;
    receivers = λ j. listeners b j sh;
  }
