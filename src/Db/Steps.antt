-- ===== src/Db/Steps.antt =====
-- The operations of redis-lib/src/db.rs in any order: each runs under the lock, so an execution of
-- all connections and the background task is a sequence of them.
use redis_demo.Base.{
  ◌≡◌, refl, subst, sym, Bool, true, false, Bytes, Option, none, some, Bool-cases, inl, inr, arith,
}
use redis_demo.Std.HashMap
use redis_demo.Std.BTreeSet
use redis_demo.Std.BTreeSet.{Instant}
use redis_demo.Env.{Env}
use redis_demo.Command.{Duration}
use redis_demo.Db.{
  Broadcast, State, Shared, locked, unlock, deadline, stored, set, get, purge_state,
  purge_expired_keys, is_shutdown, drop_guard, new, subscribe_channel, subscribe, send_on, publish,
  released, release,
}
use redis_demo.Db.Consistent.{IsConsistent, store-IsConsistent}
use redis_demo.Db.Purge.{purge_state-IsPurged}

module _ {T A : Type 0} (f : State T → Option (A × State T)) (sh : Shared T) where
  pub locked_poisoned : sh.poisoned ≡ true → locked f sh ≡ (none, sh)
  unfolding locked
  locked_poisoned broken = ground arith

  pub locked_sound : sh.poisoned ≡ false → locked f sh ≡ unlock sh.state (f sh.state)
  unfolding locked
  locked_sound sound = ground arith

  unlock-IsConsistent :
      (r : Option (A × State T))
      → ((a : A) (st : State T) → r ≡ some (a, st) → IsConsistent st)
      → IsConsistent sh.state
      → IsConsistent (unlock sh.state r).1.state
  unlock-IsConsistent none keep h = h
  unlock-IsConsistent (some (a, st)) keep h = keep a st refl

  -- Code under the lock that keeps the invariant keeps it whether it returns or panics.
  locked-IsConsistent :
      ((a : A) (st : State T) → f sh.state ≡ some (a, st) → IsConsistent st)
      → IsConsistent sh.state
      → IsConsistent (locked f sh).1.state
  locked-IsConsistent keep h = elim (Bool-cases sh.poisoned) [
    | inl broken ↦
        subst (λ (r : Option A × Shared T). IsConsistent r.1.state) (sym (locked_poisoned broken)) h
    | inr sound ↦
        subst (λ (r : Option A × Shared T). IsConsistent r.1.state) (sym (locked_sound sound))
          (unlock-IsConsistent (f sh.state) keep h)
  ]

pub purge_shut :
    {T : Type 0} (now : Instant) (st : State T)
    → st.shutdown ≡ true
    → purge_state now st ≡ (none, st)
unfolding purge_state
purge_shut now st down = ground arith

module _ {T : Type 0} (sh : Shared T) (h : IsConsistent sh.state) where
  set-IsConsistent :
      (x : Env) (now : Instant) (key value : Bytes) (expire : Option Duration)
      → IsConsistent (set x now key value expire sh).1.state
  unfolding set
  set-IsConsistent x now key value expire =
      locked-IsConsistent _ sh (λ a st e. go (deadline x now expire sh.state) e) h
    where
      go :
          {a : Bool} {st : State T} (o : Option (Option Instant × Bool))
          → stored key value sh.state o ≡ some (a, st)
          → IsConsistent st
      go none e = cc
      go (some (when, notify)) e =
          subst IsConsistent (cc) (store-IsConsistent key value when sh.state h)

  -- Code that always returns.
  total-IsConsistent :
      {A : Type 0} (g : State T → A × State T)
      → IsConsistent (g sh.state).1
      → IsConsistent (locked (λ st. some (g st)) sh).1.state
  total-IsConsistent g keep =
      locked-IsConsistent (λ st. some (g st)) sh (λ a st e. subst IsConsistent (cc) keep) h

  purge_state-IsConsistent : (now : Instant) → IsConsistent (purge_state now sh.state).1
  purge_state-IsConsistent now = elim (Bool-cases sh.state.shutdown) [
    | inl down ↦
        subst (λ (r : Option Instant × State T). IsConsistent r.1)
          (sym (purge_shut now sh.state down)) h
    | inr running ↦ (purge_state-IsPurged now sh.state h running).consistent
  ]

  purge-IsConsistent : (now : Instant) → IsConsistent (purge_expired_keys now sh).1.state
  unfolding purge_expired_keys
  purge-IsConsistent now = total-IsConsistent (purge_state now) (purge_state-IsConsistent now)

  -- The operations that leave the entries and their instants alone.
  get-IsConsistent : (key : Bytes) → IsConsistent (get key sh).1.state
  unfolding get
  get-IsConsistent key = total-IsConsistent _ h

  is_shutdown-IsConsistent : IsConsistent (is_shutdown sh).1.state
  unfolding is_shutdown
  is_shutdown-IsConsistent = total-IsConsistent _ h

  drop_guard-IsConsistent : IsConsistent (drop_guard sh).1.state
  unfolding drop_guard
  drop_guard-IsConsistent = total-IsConsistent _ (record { sorted = h.sorted; linked = h.linked })

  module _ {R : Type 0} (b : Broadcast T R) where
    subscribe-IsConsistent : (key : Bytes) → IsConsistent (subscribe b key sh).1.state
    unfolding subscribe
    subscribe-IsConsistent key = total-IsConsistent _ (go (HashMap.lookup key sh.state.pub_sub))
      where
        go : (o : Option T) → IsConsistent (subscribe_channel b key sh.state o).1
        go none = record { sorted = h.sorted; linked = h.linked }
        go (some t) = record { sorted = h.sorted; linked = h.linked }

    publish-IsConsistent : (key value : Bytes) → IsConsistent (publish b key value sh).1.state
    unfolding publish
    publish-IsConsistent key value = total-IsConsistent _ (go (HashMap.lookup key sh.state.pub_sub))
      where
        go : (o : Option T) → IsConsistent (send_on b key value sh.state o).1
        go none = h
        go (some t) = record { sorted = h.sorted; linked = h.linked }

    release-IsConsistent : (key : Bytes) → IsConsistent (release b key sh).state
    unfolding release
    release-IsConsistent key = go (HashMap.lookup key sh.state.pub_sub)
      where
        go : (o : Option T) → IsConsistent (released b key sh.state o)
        go none = h
        go (some t) = record { sorted = h.sorted; linked = h.linked }

-- An operation of a connection, of the background task or of the guard's drop, whatever its
-- arguments and whatever the clock says; it may panic. Or a receiver is dropped.
pub data Step {T R : Type 0} (x : Env) (b : Broadcast T R) (sh : Shared T) : Shared T → Type 0 where
  sets :
      (now : Instant) (key value : Bytes) (expire : Option Duration)
      → Step x b sh (set x now key value expire sh).1
  gets : (key : Bytes) → Step x b sh (get key sh).1
  subscribes : (key : Bytes) → Step x b sh (subscribe b key sh).1
  publishes : (key value : Bytes) → Step x b sh (publish b key value sh).1
  purges : (now : Instant) → Step x b sh (purge_expired_keys now sh).1
  asks : Step x b sh (is_shutdown sh).1
  drops : Step x b sh (drop_guard sh).1
  leaves : (key : Bytes) → Step x b sh (release b key sh)

-- The states that any sequence of operations reaches from `sh`.
pub data Runs {T R : Type 0} (x : Env) (b : Broadcast T R) (sh : Shared T) : Shared T → Type 0 where
  here : Runs x b sh sh
  next : {sh' sh'' : Shared T} → Runs x b sh sh' → Step x b sh' sh'' → Runs x b sh sh''

pub Step-IsConsistent :
    {T R : Type 0} {x : Env} {b : Broadcast T R} {sh sh' : Shared T}
    → Step x b sh sh'
    → IsConsistent sh.state
    → IsConsistent sh'.state
Step-IsConsistent {x} {b} {sh} (sets now key value expire) h =
    set-IsConsistent sh h x now key value expire
Step-IsConsistent {x} {b} {sh} (gets key) h = get-IsConsistent sh h key
Step-IsConsistent {x} {b} {sh} (subscribes key) h = subscribe-IsConsistent sh h b key
Step-IsConsistent {x} {b} {sh} (publishes key value) h = publish-IsConsistent sh h b key value
Step-IsConsistent {x} {b} {sh} (purges now) h = purge-IsConsistent sh h now
Step-IsConsistent {x} {b} {sh} asks h = is_shutdown-IsConsistent sh h
Step-IsConsistent {x} {b} {sh} drops h = drop_guard-IsConsistent sh h
Step-IsConsistent {x} {b} {sh} (leaves key) h = release-IsConsistent sh h b key

pub new-IsConsistent : {T : Type 0} → IsConsistent (new {T = T}).state
unfolding new HashMap.lookup BTreeSet.has
new-IsConsistent = record { sorted = tt; linked = λ key w. refl }

-- In every state that the operations reach from the empty database, in any order and also after a
-- panic, `expirations` is in order and lists exactly the keys that expire, each with the instant
-- of its entry.
pub Runs-IsConsistent :
    {T R : Type 0} (x : Env) (b : Broadcast T R) (sh : Shared T)
    → Runs x b new sh
    → IsConsistent sh.state
Runs-IsConsistent x b sh here = new-IsConsistent
Runs-IsConsistent x b sh (next {sh' = before} r step) =
    Step-IsConsistent step (Runs-IsConsistent x b before r)
