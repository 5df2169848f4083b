-- ===== src/Db.antt =====
-- redis-lib/src/db.rs: the state that all connections share. An operation takes the state that its
-- mutex guards, and `Instant::now()` where it reads the clock.
pub mod Consistent
pub mod Purge
pub mod Steps
pub mod Answers
pub mod Wake
pub mod Poison
pub mod PubSub
pub mod Task
pub mod Spec
pub mod Spared
pub mod Channels
use redis_demo.Base.{
  ℕ, zero, suc, ◌+◌, ◌-◌, ◌≡◌, Bool, true, false, Bytes, List, [], ◌∷◌, Option, none, some, ltb,
  if◌then◌else◌, length,
}
use redis_demo.Std.HashMap
use redis_demo.Std.BTreeSet
use redis_demo.Std.BTreeSet.{Instant}
use redis_demo.Env.{Env}
use redis_demo.Command.{Duration}

-- `tokio::sync::broadcast` with messages `Bytes`, for senders `T` and receivers `R`: what the
-- program relies on of it. `receivers` is the number of receivers that are subscribed.
pub record Broadcast (T R : Type 0) : Type 0 where
  pub receivers : T → ℕ
  pub channel : ℕ → T × R
  pub channel_lem : (n : ℕ) → receivers (channel n).0 ≡ 1
  pub subscribe : T → T × R
  pub subscribe_lem : (t : T) → receivers (subscribe t).0 ≡ receivers t + 1
  -- the number of receivers that the message was sent to, or an error if there are none
  pub send : T → Bytes → T × Option ℕ
  pub send_lem :
      (t : T) (m : Bytes)
      → (send t m).1 ≡ (if ltb 0 (receivers t) then some (receivers t) else none)
  pub send_keeps : (t : T) (m : Bytes) → receivers (send t m).0 ≡ receivers t
  -- a receiver is dropped
  pub leave : T → T
  pub leave_lem : (t : T) → receivers (leave t) ≡ receivers t - 1

pub record Entry : Type 0 where
  pub bytes : Bytes
  pub expires_at : Option Instant

pub record State (T : Type 0) : Type 0 where
  pub entries : List (Bytes × Entry)
  pub pub_sub : List (Bytes × T)
  pub expirations : List (Instant × Bytes)
  pub shutdown : Bool

-- What a thread sees of `Mutex<State>`: a panic while the lock is held poisons it.
pub record Shared (T : Type 0) : Type 0 where
  pub state : State T
  pub poisoned : Bool

-- `state.lock().unwrap()` and the code `f` that runs under the lock; `none` is a panic, of `unwrap`
-- on a poisoned lock or of `f`.
abbrev pub unlock : {T A : Type 0} → State T → Option (A × State T) → Option A × Shared T
unlock st none = (none, record { state = st; poisoned = true })
unlock st (some (a, st')) = (some a, record { state = st'; poisoned = false })

unfoldable pub locked :
    {T A : Type 0} → (State T → Option (A × State T)) → Shared T → Option A × Shared T
locked f sh = if sh.poisoned then (none, sh) else unlock sh.state (f sh.state)

abbrev pub head_instant : List (Instant × Bytes) → Option Instant
head_instant [] = none
head_instant ((t, k) ∷ s) = some t

-- `notify`: whether the new instant precedes the one that the background task waits for.
abbrev pub precedes : Instant → Option Instant → Bool
precedes when none = true
precedes when (some next) = ltb when next

-- `if let Some(when) = prev.expires_at { expirations.remove(&(when, key)) }`
abbrev pub forget : Option Instant → Bytes → List (Instant × Bytes) → List (Instant × Bytes)
forget none key s = s
forget (some when) key s = BTreeSet.remove (when, key) s

-- the same for the entry that was there before, if there was one
abbrev pub forget_entry : Option Entry → Bytes → List (Instant × Bytes) → List (Instant × Bytes)
forget_entry none key s = s
forget_entry (some prev) key s = forget prev.expires_at key s

abbrev pub schedule : Option Instant → Bytes → List (Instant × Bytes) → List (Instant × Bytes)
schedule none key s = s
schedule (some when) key s = BTreeSet.insert (when, key) s

abbrev pub bytes_of : Option Entry → Option Bytes
bytes_of none = none
bytes_of (some e) = some e.bytes

module _ {T : Type 0} where
  unfoldable pub next_expiration : State T → Option Instant
  next_expiration st = head_instant st.expirations

  -- `expire.map(|duration| …)`: the instant and `notify`. `Instant::now() + duration` panics if the
  -- platform cannot hold the sum.
  unfoldable pub deadline :
      Env → Instant → Option Duration → State T → Option (Option Instant × Bool)
  deadline x now none st = some (none, false)
  deadline x now (some d) st =
      if ltb x.max_instant (now + d)
      then none
      else some (some (now + d), precedes (now + d) (next_expiration st))

  -- the rest of `set`, under the lock
  unfoldable pub store : Bytes → Bytes → Option Instant → State T → State T
  store key value expires_at st = record {
    entries = HashMap.insert key (record { bytes = value; expires_at = expires_at }) st.entries;
    pub_sub = st.pub_sub;
    expirations =
        schedule expires_at key (forget_entry (HashMap.lookup key st.entries) key st.expirations);
    shutdown = st.shutdown;
  }

  abbrev pub stored :
      Bytes → Bytes → State T → Option (Option Instant × Bool) → Option (Bool × State T)
  stored key value st none = none
  stored key value st (some (expires_at, notify)) = some (notify, store key value expires_at st)

  -- `Db::set`; the result says whether it calls `notify_one`.
  unfoldable pub set :
      Env → Instant → Bytes → Bytes → Option Duration → Shared T → Option Bool × Shared T
  set x now key value expire = locked λ st. stored key value st (deadline x now expire st)

  -- `Db::get`
  unfoldable pub get : Bytes → Shared T → Option (Option Bytes) × Shared T
  get key = locked λ st. some (bytes_of (HashMap.lookup key st.entries), st)

  abbrev pub with_channel : Bytes → T → State T → State T
  with_channel key t st = record {
    entries = st.entries;
    pub_sub = HashMap.insert key t st.pub_sub;
    expirations = st.expirations;
    shutdown = st.shutdown;
  }

  -- The loop of `purge_expired_keys`, a round for each element of `expirations` at most.
  unfoldable pub purge_loop : ℕ → Instant → State T → Option Instant × State T
  purge_loop zero now st = (none, st)
  purge_loop (suc k) now st = elim st.expirations [
    | [] ↦ (none, st)
    | (when, key) ∷ s ↦
        let rest = purge_loop k now (record {
          entries = HashMap.remove key st.entries;
          pub_sub = st.pub_sub;
          expirations = BTreeSet.remove (when, key) st.expirations;
          shutdown = st.shutdown;
        }) in
        if ltb now when then (some when, st) else rest
  ]

  unfoldable pub purge_state : Instant → State T → Option Instant × State T
  purge_state now st = if st.shutdown then (none, st) else purge_loop (length st.expirations) now st

  -- `Shared::purge_expired_keys`
  unfoldable pub purge_expired_keys : Instant → Shared T → Option (Option Instant) × Shared T
  purge_expired_keys now = locked λ st. some (purge_state now st)

  -- `Shared::is_shutdown`
  unfoldable pub is_shutdown : Shared T → Option Bool × Shared T
  is_shutdown = locked λ st. some (st.shutdown, st)

  -- `DbDropGuard::drop`, without the call of `notify_one` that follows
  unfoldable pub drop_guard : Shared T → Option (Unit {0}) × Shared T
  drop_guard = locked λ st. some (
    tt,
    record {
      entries = st.entries;
      pub_sub = st.pub_sub;
      expirations = st.expirations;
      shutdown = true;
    },
  )

  -- `Db::new`
  unfoldable pub new : Shared T
  new = record {
    state = record { entries = []; pub_sub = []; expirations = []; shutdown = false };
    poisoned = false;
  }

-- `unwrap_or(0)`
abbrev pub count_or_zero : Option ℕ → ℕ
count_or_zero none = 0
count_or_zero (some n) = n

module _ {T R : Type 0} (b : Broadcast T R) where
  abbrev pub subscribe_channel : Bytes → State T → Option T → R × State T
  subscribe_channel key st (some t) = let (t', r) = b.subscribe t in (r, with_channel key t' st)
  subscribe_channel key st none = let (t, r) = b.channel 1024 in (r, with_channel key t st)

  -- `Db::subscribe`
  unfoldable pub subscribe : Bytes → Shared T → Option R × Shared T
  subscribe key = locked λ st. some (subscribe_channel key st (HashMap.lookup key st.pub_sub))

  abbrev pub send_on : Bytes → Bytes → State T → Option T → ℕ × State T
  send_on key value st none = (0, st)
  send_on key value st (some t) =
      let (t', sent) = b.send t value in (count_or_zero sent, with_channel key t' st)

  -- `Db::publish`
  unfoldable pub publish : Bytes → Bytes → Shared T → Option ℕ × Shared T
  publish key value = locked λ st. some (send_on key value st (HashMap.lookup key st.pub_sub))

  abbrev pub released : Bytes → State T → Option T → State T
  released key st none = st
  released key st (some t) = with_channel key (b.leave t) st

  -- The drop of a receiver of the channel `key`: no operation of `Db` and not under its lock, but the
  -- sender in `pub_sub` counts one receiver less.
  unfoldable pub release : Bytes → Shared T → Shared T
  release key sh = record {
    state = released key sh.state (HashMap.lookup key sh.state.pub_sub);
    poisoned = sh.poisoned;
  }
