-- ===== src/Db/Spared.antt =====
-- Operations of redis-lib/src/db.rs between a `SET` and a `GET` that leave the value of its key alone.
use redis_demo.Base.{
  ◌≡◌, refl, ap, sym, ◌∙◌, Bool, false, Bool-cases, inl, inr, Bytes, Option, none, some, ◌is◌,
  some_eq,
}
use redis_demo.Std.HashMap
use redis_demo.Std.BTreeSet.{Instant}
use redis_demo.Env.{Env}
use redis_demo.Command.{Duration}
use redis_demo.Db
use redis_demo.Db.{Entry, State, Shared, Broadcast, locked}
use redis_demo.Db.Answers.{lookup-store}
use redis_demo.Db.Consistent.{IsConsistent}
use redis_demo.Db.Purge.{has_expired, keep_live, purge_state-IsPurged}
use redis_demo.Db.Steps.{
  Step, sets, gets, subscribes, publishes, purges, asks, drops, leaves, Runs, here, next,
  Step-IsConsistent, purge_shut,
}
use redis_demo.Db.Task.Watch.{locked_keeps, total_keeps}

-- No other `SET` of the key `j`, and no purge at or after the instant `when`, if there is one.
abbrev pub Spares :
    {T R : Type 0} {x : Env} {b : Broadcast T R} {sh sh' : Shared T}
    → Bytes
    → Option Instant
    → Step x b sh sh'
    → Type 0
Spares j when (sets now key value expire) = key is j ≡ false
Spares j when (gets key) = Unit
Spares j when (subscribes key) = Unit
Spares j when (publishes key value) = Unit
Spares j when (purges now) = has_expired now when ≡ false
Spares j when asks = Unit
Spares j when drops = Unit
Spares j when (leaves key) = Unit

abbrev pub AreSparing :
    {T R : Type 0} {x : Env} {b : Broadcast T R} {sh sh' : Shared T}
    → Bytes
    → Option Instant
    → Runs x b sh sh'
    → Type 0
AreSparing j when here = Unit
AreSparing j when (next r step) = AreSparing j when r × Spares j when step

module _ {T : Type 0} (j : Bytes) (e : Entry) where
  abbrev pub Has : State T → Type 0
  Has st = HashMap.lookup j st.entries ≡ some e

  stored-Has :
      (key value : Bytes) (st : State T) (o : Option (Option Instant × Bool)) (a : Bool)
      (st' : State T)
      → key is j ≡ false
      → Db.stored key value st o ≡ some (a, st')
      → HashMap.lookup j st'.entries ≡ HashMap.lookup j st.entries
  stored-Has key value st none a st' other h = cc
  stored-Has key value st (some (when, notify)) a st' other h =
      sym (ap (λ (r : Bool × State T). HashMap.lookup j r.1.entries) (some_eq h))
      ∙ lookup-store key value j when st
      ∙ rw other refl

  module _ (sh : Shared T) where
    set-keeps :
        (x : Env) (now : Instant) (key value : Bytes) (expire : Option Duration)
        → key is j ≡ false
        → HashMap.lookup j (Db.set x now key value expire sh).1.state.entries
          ≡ HashMap.lookup j sh.state.entries
    unfolding Db.set
    set-keeps x now key value expire other =
        locked_keeps (λ (st : State T). HashMap.lookup j st.entries) _ sh
          λ a st h. stored-Has key value sh.state _ a st other h

    get-keeps : (key : Bytes) → (Db.get key sh).1.state.entries ≡ sh.state.entries
    unfolding Db.get
    get-keeps key = total_keeps (λ (st : State T). st.entries) _ sh refl

    asks-keeps : (Db.is_shutdown sh).1.state.entries ≡ sh.state.entries
    unfolding Db.is_shutdown
    asks-keeps = total_keeps (λ (st : State T). st.entries) _ sh refl

    drops-keeps : (Db.drop_guard sh).1.state.entries ≡ sh.state.entries
    unfolding Db.drop_guard
    drops-keeps = total_keeps (λ (st : State T). st.entries) _ sh refl

    module _ {R : Type 0} (b : Broadcast T R) where
      subscribe-keeps : (key : Bytes) → (Db.subscribe b key sh).1.state.entries ≡ sh.state.entries
      unfolding Db.subscribe
      subscribe-keeps key =
          total_keeps (λ (st : State T). st.entries) _ sh (go (HashMap.lookup key sh.state.pub_sub))
        where
          go : (o : Option T) → (Db.subscribe_channel b key sh.state o).1.entries ≡ sh.state.entries
          go none = refl
          go (some t) = refl

      publish-keeps :
          (key value : Bytes) → (Db.publish b key value sh).1.state.entries ≡ sh.state.entries
      unfolding Db.publish
      publish-keeps key value =
          total_keeps (λ (st : State T). st.entries) _ sh (go (HashMap.lookup key sh.state.pub_sub))
        where
          go : (o : Option T) → (Db.send_on b key value sh.state o).1.entries ≡ sh.state.entries
          go none = refl
          go (some t) = refl

      release-keeps : (key : Bytes) → (Db.release b key sh).state.entries ≡ sh.state.entries
      unfolding Db.release
      release-keeps key = go (HashMap.lookup key sh.state.pub_sub)
        where
          go : (o : Option T) → (Db.released b key sh.state o).entries ≡ sh.state.entries
          go none = refl
          go (some t) = refl

  purged-Has :
      (now : Instant) (st : State T)
      → IsConsistent st
      → has_expired now e.expires_at ≡ false
      → Has st
      → Has (Db.purge_state now st).1
  purged-Has now st c alive h = elim (Bool-cases st.shutdown) [
    | inl down ↦
        ap (λ (r : Option Instant × State T). HashMap.lookup j r.1.entries) (purge_shut now st down)
        ∙ h
    | inr running ↦
        (purge_state-IsPurged now st c running).live j ∙ ap (keep_live now) h ∙ rw alive refl
  ]

  purge-Has :
      (now : Instant) (sh : Shared T)
      → IsConsistent sh.state
      → has_expired now e.expires_at ≡ false
      → Has sh.state
      → Has (Db.purge_expired_keys now sh).1.state
  unfolding Db.purge_expired_keys
  purge-Has now sh c alive h =
      total_keeps (λ (st : State T). HashMap.lookup j st.entries) _ sh
        (purged-Has now sh.state c alive h ∙ sym h)
      ∙ h

  module _ {R : Type 0} {x : Env} {b : Broadcast T R} where
    Step-Has :
        {sh sh' : Shared T} (step : Step x b sh sh')
        → Spares j e.expires_at step
        → IsConsistent sh.state
        → Has sh.state
        → Has sh'.state
    Step-Has {sh} (sets now key value expire) other c h =
        set-keeps sh x now key value expire other ∙ h
    Step-Has {sh} (gets key) spares c h = ap (HashMap.lookup j) (get-keeps sh key) ∙ h
    Step-Has {sh} (subscribes key) spares c h = ap (HashMap.lookup j) (subscribe-keeps sh b key) ∙ h
    Step-Has {sh} (publishes key value) spares c h =
        ap (HashMap.lookup j) (publish-keeps sh b key value) ∙ h
    Step-Has {sh} (purges now) alive c h = purge-Has now sh c alive h
    Step-Has {sh} asks spares c h = ap (HashMap.lookup j) (asks-keeps sh) ∙ h
    Step-Has {sh} drops spares c h = ap (HashMap.lookup j) (drops-keeps sh) ∙ h
    Step-Has {sh} (leaves key) spares c h = ap (HashMap.lookup j) (release-keeps sh b key) ∙ h

    -- An entry outlives such operations, in any order and number.
    pub Runs-Has :
        {sh sh' : Shared T} (r : Runs x b sh sh')
        → AreSparing j e.expires_at r
        → IsConsistent sh.state
        → Has sh.state
        → IsConsistent sh'.state × Has sh'.state
    Runs-Has here spares c h = (c, h)
    Runs-Has (next r step) (spares, spare) c h =
        let (c', h') = Runs-Has r spares c h in
        (Step-IsConsistent {x = x} {b = b} step c', Step-Has step spare c' h')
