-- ===== src/Db/Channels.antt =====
-- What the operations of redis-lib/src/db.rs do to the sender of one channel.
use redis_demo.Base.{
  ◌≡◌, refl, ◌∙◌, ap, Bool, Bool-cases, inl, inr, Bytes, Option, none, some, ◌is◌, if◌then◌else◌,
  is→eq, is_refl,
}
use redis_demo.Std.HashMap
use redis_demo.Std.BTreeSet.{Instant}
use redis_demo.Env.{Env}
use redis_demo.Db
use redis_demo.Db.{State, Shared, Broadcast, locked, unlock, deadline}
use redis_demo.Db.Steps.{locked_sound}
use redis_demo.Db.Purge.{purge_state-IsPurged}
use redis_demo.Db.Spec.{
  Call, sets, gets, subscribes, publishes, purges, leaves, Reply, done, found, reached, told,
  execute,
}
use redis_demo.Db.Spec.Kept.{IsOpen}

abbrev pub sender : {T : Type 0} → Bytes → Shared T → Option T
sender j sh = HashMap.lookup j sh.state.pub_sub

module _ {T R : Type 0} (b : Broadcast T R) where
  abbrev pub joined : Option T → Option T
  joined none = some (b.channel 1024).0
  joined (some t) = some (b.subscribe t).0

  abbrev pub sent : Bytes → Option T → Option T
  sent value none = none
  sent value (some t) = some (b.send t value).0

  abbrev pub left : Option T → Option T
  left none = none
  left (some t) = some (b.leave t)

  -- The sender of the channel `j` after a call.
  abbrev pub sender_after : Call → Bytes → Option T → Option T
  sender_after (subscribes key) j o = if key is j then joined o else o
  sender_after (publishes key value) j o = if key is j then sent value o else o
  sender_after (leaves key) j o = if key is j then left o else o
  sender_after _ j o = o

module _ {T R : Type 0} (x : Env) (b : Broadcast T R) where
  module _ (sh : Shared T) (h : IsOpen sh) (j : Bytes) where
    stored-sender :
        (key value : Bytes) (o : Option (Option Instant × Bool))
        → sender j (unlock sh.state (Db.stored key value sh.state o)).1 ≡ sender j sh
    unfolding Db.store
    stored-sender key value none = refl
    stored-sender key value (some (when, notify)) = refl

    -- `f` at the key is `f` at `j` where they are the same.
    at_key :
        (f : Option T → Option T) (key : Bytes) (o : Option T)
        → sender key sh ≡ o
        → (if key is j then f o else sender j sh)
          ≡ (if key is j then f (sender j sh) else sender j sh)
    at_key f key o e = elim (Bool-cases (key is j)) [
      | inl same ↦ rw (← is→eq key j same, is_refl key, e) refl
      | inr different ↦ rw different refl
    ]

    pub joined-sender :
        (key : Bytes) (o : Option T)
        → sender key sh ≡ o
        → HashMap.lookup j (Db.subscribe_channel b key sh.state o).1.pub_sub
          ≡ sender_after b (subscribes key) j (sender j sh)
    joined-sender key none e =
        HashMap.lookup-insert key j _ sh.state.pub_sub ∙ at_key (joined b) key none e
    joined-sender key (some t) e =
        HashMap.lookup-insert key j _ sh.state.pub_sub ∙ at_key (joined b) key (some t) e

    sent-sender :
        (key value : Bytes) (o : Option T)
        → sender key sh ≡ o
        → HashMap.lookup j (Db.send_on b key value sh.state o).1.pub_sub
          ≡ sender_after b (publishes key value) j (sender j sh)
    sent-sender key value none e = elim (Bool-cases (key is j)) [
      | inl same ↦ rw (← is→eq key j same, is_refl key, e) refl
      | inr different ↦ rw different refl
    ]
    sent-sender key value (some t) e =
        HashMap.lookup-insert key j _ sh.state.pub_sub ∙ at_key (sent b value) key (some t) e

    left-sender :
        (key : Bytes) (o : Option T)
        → sender key sh ≡ o
        → HashMap.lookup j (Db.released b key sh.state o).pub_sub
          ≡ sender_after b (leaves key) j (sender j sh)
    left-sender key none e = elim (Bool-cases (key is j)) [
      | inl same ↦ rw (← is→eq key j same, is_refl key, e) refl
      | inr different ↦ rw different refl
    ]
    left-sender key (some t) e =
        HashMap.lookup-insert key j _ sh.state.pub_sub ∙ at_key (left b) key (some t) e

    told-sender :
        {A : Type 0} (reply : A → Reply) (f : State T → Option (A × State T))
        → sender j (told reply (locked f sh)).1 ≡ sender j (unlock sh.state (f sh.state)).1
    told-sender reply f =
        ap (λ r. sender j (told reply r).1) (locked_sound f sh h.sound)
        ∙ told_kept reply (unlock sh.state (f sh.state))
      where
        told_kept :
            {A : Type 0} (reply : A → Reply) (r : Option A × Shared T)
            → sender j (told reply r).1 ≡ sender j r.1
        told_kept reply (none, s) = refl
        told_kept reply (some a, s) = refl

    -- A call on an open database changes the sender of the channel `j` where it subscribes to it,
    -- publishes on it or drops a receiver of it, as the channel's operations say, and otherwise not.
    pub execute-sender :
        (call : Call) → sender j (execute x b call sh).1 ≡ sender_after b call j (sender j sh)
    unfolding Db.set Db.get Db.subscribe Db.publish Db.purge_expired_keys Db.release
    execute-sender (sets now key value expire) =
        told-sender (λ _. done) _ ∙ stored-sender key value (deadline x now expire sh.state)
    execute-sender (gets key) = told-sender found _
    execute-sender (subscribes key) =
        told-sender (λ _. done) _ ∙ joined-sender key (sender key sh) refl
    execute-sender (publishes key value) =
        told-sender reached _ ∙ sent-sender key value (sender key sh) refl
    execute-sender (purges now) =
        told-sender (λ _. done) _
        ∙ ap (HashMap.lookup j)
            (purge_state-IsPurged now sh.state h.consistent h.running).same_channels
    execute-sender (leaves key) = left-sender key (sender key sh) refl
