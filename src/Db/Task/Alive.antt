-- ===== src/Db/Task/Alive.antt =====
-- The background task of redis-lib/src/db.rs ends only with the database.
use redis_demo.Base.{
  some_eq, ◌≡◌, refl, ap, sym, ◌∙◌, subst, Bool, true, false, Bool-cases, inl, inr, Bytes, Option,
  none, some,
}
use redis_demo.Std.HashMap
use redis_demo.Std.BTreeSet.{Instant}
use redis_demo.Env.{Env}
use redis_demo.Db
use redis_demo.Db.{State, Shared, Broadcast, locked}
use redis_demo.Db.Consistent.{IsConsistent}
use redis_demo.Db.Purge.{purge_state-IsPurged}
use redis_demo.Db.Steps.{locked_poisoned, locked_sound, purge_shut}
use redis_demo.Db.Task.Watch.{locked_keeps, total_keeps}
use redis_demo.Db.Task.Wakes.{Reaches-IsWatched}
use redis_demo.Db.Task.{
  finished, World, after_look, after_purge, Moves, Reaches, begin, step, sets, gets, subscribes,
  publishes, leaves, drops, looks, purges, wakes, hears,
}

module _ {T : Type 0} where
  abbrev pub IsRunning : Shared T → Type 0
  IsRunning sh = (sh.poisoned ≡ false) × (sh.state.shutdown ≡ false)

  -- Code under the lock that does not shut the database down finds it open if it leaves it open.
  was-IsRunning :
      {A : Type 0} (f : State T → Option (A × State T)) (sh : Shared T)
      → (locked f sh).1.state.shutdown ≡ sh.state.shutdown
      → IsRunning (locked f sh).1
      → IsRunning sh
  was-IsRunning f sh same fine = elim (Bool-cases sh.poisoned) [
    | inl broken ↦ subst IsRunning (ap (λ r. r.1) (locked_poisoned f sh broken)) fine
    | inr sound ↦ (sound, sym same ∙ fine.1)
  ]

  purge_shutdown :
      (now : Instant) (st : State T)
      → IsConsistent st
      → (Db.purge_state now st).1.shutdown ≡ st.shutdown
  purge_shutdown now st c = elim (Bool-cases st.shutdown) [
    | inl down ↦ ap (λ r. r.1.shutdown) (purge_shut now st down)
    | inr running ↦ (purge_state-IsPurged now st c running).same_shutdown
  ]

  stored_shutdown :
      (key value : Bytes) (st : State T) (o : Option (Option Instant × Bool)) (a : Bool)
      (st' : State T)
      → Db.stored key value st o ≡ some (a, st')
      → st'.shutdown ≡ st.shutdown
  unfolding Db.store
  stored_shutdown key value st none a st' e = cc
  stored_shutdown key value st (some (when, notify)) a st' e =
      sym (ap (λ (r : Bool × State T). r.1.shutdown) (some_eq e))

  module _ (sh : Shared T) where
    set_was :
        (x : Env) (now : Instant) (key value : Bytes) (expire : _)
        → IsRunning (Db.set x now key value expire sh).1
        → IsRunning sh
    unfolding Db.set Db.store
    set_was x now key value expire = was-IsRunning _ sh (
        locked_keeps (λ (st : State T). st.shutdown) _ sh
          λ a st e. stored_shutdown key value sh.state _ a st e)

    get_was : (key : Bytes) → IsRunning (Db.get key sh).1 → IsRunning sh
    unfolding Db.get
    get_was key = was-IsRunning _ sh (total_keeps (λ (st : State T). st.shutdown) _ sh refl)

    drop_was : IsRunning (Db.drop_guard sh).1 → IsRunning sh
    unfolding Db.drop_guard
    drop_was fine = elim (Bool-cases sh.poisoned) [
      | inl broken ↦ subst IsRunning (ap (λ r. r.1) (locked_poisoned _ sh broken)) fine
      | inr sound ↦ absurd (
          cc (
            fine.1,
            ap (λ r. r.1.state.shutdown)
                (locked_sound
                  (λ st. some (
                    tt {0},
                    record {
                      entries = st.entries;
                      pub_sub = st.pub_sub;
                      expirations = st.expirations;
                      shutdown = true;
                    },
                  ))
                  sh sound),
          ))
    ]

    asked_was : IsRunning (Db.is_shutdown sh).1 → IsRunning sh
    unfolding Db.is_shutdown
    asked_was = was-IsRunning _ sh (total_keeps (λ (st : State T). st.shutdown) _ sh refl)

    purge_was :
        (now : Instant)
        → IsConsistent sh.state
        → IsRunning (Db.purge_expired_keys now sh).1
        → IsRunning sh
    unfolding Db.purge_expired_keys
    purge_was now c =
        was-IsRunning _ sh
          (total_keeps (λ (st : State T). st.shutdown) _ sh (purge_shutdown now sh.state c))

    module _ {R : Type 0} (b : Broadcast T R) where
      subscribe_was : (key : Bytes) → IsRunning (Db.subscribe b key sh).1 → IsRunning sh
      unfolding Db.subscribe
      subscribe_was key = was-IsRunning _ sh (
          total_keeps (λ (st : State T). st.shutdown) _ sh
            (go (HashMap.lookup key sh.state.pub_sub)))
        where
          go :
              (o : Option T)
              → (Db.subscribe_channel b key sh.state o).1.shutdown ≡ sh.state.shutdown
          go none = refl
          go (some t) = refl

      publish_was : (key value : Bytes) → IsRunning (Db.publish b key value sh).1 → IsRunning sh
      unfolding Db.publish
      publish_was key value = was-IsRunning _ sh (
          total_keeps (λ (st : State T). st.shutdown) _ sh
            (go (HashMap.lookup key sh.state.pub_sub)))
        where
          go : (o : Option T) → (Db.send_on b key value sh.state o).1.shutdown ≡ sh.state.shutdown
          go none = refl
          go (some t) = refl

      release_was : (key : Bytes) → IsRunning (Db.release b key sh) → IsRunning sh
      unfolding Db.release
      release_was key (sound, running) = (sound, go (HashMap.lookup key sh.state.pub_sub) running)
        where
          go :
              (o : Option T)
              → (Db.released b key sh.state o).shutdown ≡ false
              → sh.state.shutdown ≡ false
          go none e = e
          go (some t) e = e

    -- On an open database the task goes on.
    pub look_goes_on : IsRunning sh → Db.is_shutdown sh ≡ (some false, sh)
    unfolding Db.is_shutdown
    look_goes_on fine = locked_sound _ sh fine.0 ∙ λ i.
        (some (fine.1 i), record { state = sh.state; poisoned = sym fine.0 i })

    pub purge_goes_on :
        (now : Instant)
        → IsRunning sh
        → Db.purge_expired_keys now sh ≡ (
          some (Db.purge_state now sh.state).0,
          record { state = (Db.purge_state now sh.state).1; poisoned = false },
        )
    unfolding Db.purge_expired_keys
    purge_goes_on now fine = locked_sound _ sh fine.0

  abbrev pub IsAlive : World T → Type 0
  IsAlive s = IsRunning s.db → ¬ (s.task ≡ finished)

module _ {T R : Type 0} {x : Env} {b : Broadcast T R} where
  Moves-IsAlive :
      {s s' : World T} → Moves x b s s' → IsConsistent s.db.state → IsAlive s → IsAlive s'
  Moves-IsAlive {s} (sets now key value expire) c h fine =
      h (set_was s.db x now key value expire fine)
  Moves-IsAlive {s} (gets key) c h fine = h (get_was s.db key fine)
  Moves-IsAlive {s} (subscribes key) c h fine = h (subscribe_was s.db b key fine)
  Moves-IsAlive {s} (publishes key value) c h fine = h (publish_was s.db b key value fine)
  Moves-IsAlive {s} (leaves key) c h fine = h (release_was s.db b key fine)
  Moves-IsAlive {s} drops c h fine = h (drop_was s.db fine)
  Moves-IsAlive {s} (looks e) c h fine =
      λ f. cc (sym (ap (λ r. after_look r.0) (look_goes_on s.db (asked_was s.db fine))) ∙ f)
  Moves-IsAlive {s} (purges now e) c h fine = λ f.
      cc (sym (ap (λ r. after_purge r.0) (purge_goes_on s.db now (purge_was s.db now c fine))) ∙ f)
  Moves-IsAlive {s} (wakes now w e le) c h fine = λ f. cc
  Moves-IsAlive {s} (hears when e p) c h fine = λ f. cc

  pub Reaches-IsAlive : {s : World T} → Reaches x b s → IsAlive s
  Reaches-IsAlive begin = λ fine f. cc
  Reaches-IsAlive (step r m) = Moves-IsAlive m (Reaches-IsWatched r).0 (Reaches-IsAlive r)
