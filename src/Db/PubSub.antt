-- ===== src/Db/PubSub.antt =====
-- The receivers of a channel, as `Db::subscribe`, `Db::publish` (redis-lib/src/db.rs) and the drop of a
-- receiver count them.
use redis_demo.Base.{
  ℕ, ◌+◌, ◌-◌, ◌≡◌, refl, ap, ◌∙◌, false, Bytes, Option, none, some, ◌is◌, if◌then◌else◌,
  Bool-cases, inl, inr, is→eq, is_refl, arith,
}
use redis_demo.Std.HashMap
use redis_demo.Db.{
  Broadcast, State, Shared, subscribe_channel, subscribe, send_on, count_or_zero, publish, released,
  release,
}
use redis_demo.Db.Steps.{locked_sound}

module _ {T R : Type 0} (b : Broadcast T R) where
  abbrev pub heard : Option T → ℕ
  heard none = 0
  heard (some t) = b.receivers t

  -- The number of receivers on the channel `key`; a channel that does not exist has none.
  abbrev pub listeners : Bytes → Shared T → ℕ
  listeners key sh = heard (HashMap.lookup key sh.state.pub_sub)

  pub send_on-heard :
      (key value : Bytes) (st : State T) (o : Option T) → (send_on b key value st o).0 ≡ heard o
  send_on-heard key value st none = refl
  send_on-heard key value st (some t) = ap count_or_zero (b.send_lem t value) ∙ ground arith

  -- A message leaves every channel its receivers.
  pub send_on-keeps :
      (key value j : Bytes) (st : State T)
      → heard (HashMap.lookup j (send_on b key value st (HashMap.lookup key st.pub_sub)).1.pub_sub)
        ≡ heard (HashMap.lookup j st.pub_sub)
  send_on-keeps key value j st = go (HashMap.lookup key st.pub_sub) refl
    where
      go :
          (o : Option T)
          → HashMap.lookup key st.pub_sub ≡ o
          → heard (HashMap.lookup j (send_on b key value st o).1.pub_sub)
            ≡ heard (HashMap.lookup j st.pub_sub)
      go none e = refl
      go (some t) e =
          ap heard (HashMap.lookup-insert key j (b.send t value).0 st.pub_sub)
          ∙ elim (Bool-cases (key is j)) [
            | inl same ↦ rw (← is→eq key j same, is_refl key, e) (b.send_keeps t value)
            | inr different ↦ rw different refl
          ]

  pub subscribe-heard :
      (key j : Bytes) (st : State T)
      → heard
          (HashMap.lookup j (subscribe_channel b key st (HashMap.lookup key st.pub_sub)).1.pub_sub)
        ≡ heard (HashMap.lookup j st.pub_sub) + (if key is j then 1 else 0)
  subscribe-heard key j st = go (HashMap.lookup key st.pub_sub) refl
    where
      go :
          (o : Option T)
          → HashMap.lookup key st.pub_sub ≡ o
          → heard (HashMap.lookup j (subscribe_channel b key st o).1.pub_sub)
            ≡ heard (HashMap.lookup j st.pub_sub) + (if key is j then 1 else 0)
      go none e =
          ap heard (HashMap.lookup-insert key j (b.channel 1024).0 st.pub_sub)
          ∙ elim (Bool-cases (key is j)) [
            | inl same ↦ rw (← is→eq key j same, is_refl key, e) (omega (arith, b.channel_lem 1024))
            | inr different ↦ rw different (omega arith)
          ]
      go (some t) e =
          ap heard (HashMap.lookup-insert key j (b.subscribe t).0 st.pub_sub)
          ∙ elim (Bool-cases (key is j)) [
            | inl same ↦ rw (← is→eq key j same, is_refl key, e) (b.subscribe_lem t)
            | inr different ↦ rw different (omega arith)
          ]

  -- The drop of a receiver takes one from its channel, if there is one, and none from any other.
  pub release-listeners :
      (key j : Bytes) (sh : Shared T)
      → listeners j (release b key sh) ≡ listeners j sh - (if key is j then 1 else 0)
  unfolding release
  release-listeners key j sh = go (HashMap.lookup key sh.state.pub_sub) refl
    where
      go :
          (o : Option T)
          → HashMap.lookup key sh.state.pub_sub ≡ o
          → heard (HashMap.lookup j (released b key sh.state o).pub_sub)
            ≡ heard (HashMap.lookup j sh.state.pub_sub) - (if key is j then 1 else 0)
      go none e = elim (Bool-cases (key is j)) [
        | inl same ↦ rw (← is→eq key j same, is_refl key, e) refl
        | inr different ↦ rw different (omega arith)
      ]
      go (some t) e =
          ap heard (HashMap.lookup-insert key j (b.leave t) sh.state.pub_sub)
          ∙ elim (Bool-cases (key is j)) [
            | inl same ↦ rw (← is→eq key j same, is_refl key, e) (b.leave_lem t)
            | inr different ↦ rw different (omega arith)
          ]

  module _ (sh : Shared T) (sound : sh.poisoned ≡ false) where
    -- `publish` answers the number of receivers on its channel, whether the channel exists or not.
    pub publish-listeners :
        (key value : Bytes) → (publish b key value sh).0 ≡ some (listeners key sh)
    unfolding publish
    publish-listeners key value =
        ap (λ r. r.0) (locked_sound _ sh sound)
        ∙ ap some (send_on-heard key value sh.state (HashMap.lookup key sh.state.pub_sub))

  module _ (sh : Shared T) (sound : sh.poisoned ≡ false) where
    -- A subscription to the channel `key` adds one receiver to it, which it creates if it is not
    -- there, and none to any other channel: a `publish` on any channel, next after it, answers the
    -- number of receivers that the channel had before the subscription, and on `key` one more.
    pub publish-subscribe :
        (key j value : Bytes)
        → (publish b j value (subscribe b key sh).1).0
          ≡ some (listeners j sh + (if key is j then 1 else 0))
    unfolding subscribe
    publish-subscribe key j value =
        ap (λ r. (publish b j value r.1).0) (locked_sound _ sh sound)
        ∙ publish-listeners _ refl j value
        ∙ ap some (subscribe-heard key j sh.state)
