-- ===== src/Db/Task/Wakes.antt =====
-- The background task of redis-lib/src/db.rs misses no expiry.
use redis_demo.Base.{
  ◌≤◌, ◌≡◌, refl, ap, sym, ◌∙◌, subst, inl, inr, Bool, true, false, ◌||◌, Bool-cases, Bytes, Option,
  none, some, arith,
}
use redis_demo.Std.HashMap
use redis_demo.Std.BTreeSet.{Instant}
use redis_demo.Env.{Env}
use redis_demo.Command.{Duration}
use redis_demo.Db
use redis_demo.Db.{State, Shared, Broadcast, locked, unlock, next_expiration}
use redis_demo.Db.Consistent.{IsConsistent}
use redis_demo.Db.Purge.{purge_state-IsPurged}
use redis_demo.Db.Steps.{
  Runs, here, next, locked_poisoned, locked_sound, Step-IsConsistent, new-IsConsistent,
}
use redis_demo.Db.Steps
use redis_demo.Db.Answers.{set_returned}
use redis_demo.Db.Wake.{set-wakes_in_time}
use redis_demo.Db.Task.Watch.{IsWatched, notified, awake, over, quiet, locked-none, total_keeps}
use redis_demo.Db.Task.{
  Task, purging, waiting, World, after_look, after_purge, notifies, returns, Moves, Reaches, begin,
  step, sets, gets, subscribes, publishes, leaves, drops, looks, purges, wakes, hears,
}

waiting_eq : {o o' : Option Instant} → waiting o ≡ waiting o' → o ≡ o'
waiting_eq e = cc

or_false : (p : Bool) → p ≡ (p || false)
or_false p = ground arith

or_true : (p : Bool) → true ≡ (p || true)
or_true p = ground arith

module _ {T : Type 0} (k : Task) (permit : Bool) (sh : Shared T)
    (h : IsWatched k permit sh.state) where
  -- Operations that leave the instants and the flag alone.
  get-IsWatched : (key : Bytes) → IsWatched k permit (Db.get key sh).1.state
  unfolding Db.get
  get-IsWatched key =
      quiet k permit sh.state _ (total_keeps next_expiration _ sh refl)
        (total_keeps (λ (st : State T). st.shutdown) _ sh refl) h

  module _ {R : Type 0} (b : Broadcast T R) where
    subscribe-IsWatched : (key : Bytes) → IsWatched k permit (Db.subscribe b key sh).1.state
    unfolding Db.subscribe next_expiration
    subscribe-IsWatched key =
        quiet k permit sh.state _
          (total_keeps next_expiration _ sh (go (HashMap.lookup key sh.state.pub_sub)).0)
          (total_keeps (λ (st : State T). st.shutdown) _ sh
            (go (HashMap.lookup key sh.state.pub_sub)).1)
          h
      where
        go :
            (o : Option T)
            → (next_expiration (Db.subscribe_channel b key sh.state o).1 ≡ next_expiration sh.state)
              × ((Db.subscribe_channel b key sh.state o).1.shutdown ≡ sh.state.shutdown)
        go none = (refl, refl)
        go (some t) = (refl, refl)

    publish-IsWatched : (key value : Bytes) → IsWatched k permit (Db.publish b key value sh).1.state
    unfolding Db.publish next_expiration
    publish-IsWatched key value =
        quiet k permit sh.state _
          (total_keeps next_expiration _ sh (go (HashMap.lookup key sh.state.pub_sub)).0)
          (total_keeps (λ (st : State T). st.shutdown) _ sh
            (go (HashMap.lookup key sh.state.pub_sub)).1)
          h
      where
        go :
            (o : Option T)
            → (next_expiration (Db.send_on b key value sh.state o).1 ≡ next_expiration sh.state)
              × ((Db.send_on b key value sh.state o).1.shutdown ≡ sh.state.shutdown)
        go none = (refl, refl)
        go (some t) = (refl, refl)

    release-IsWatched : (key : Bytes) → IsWatched k permit (Db.release b key sh).state
    unfolding Db.release next_expiration
    release-IsWatched key = go (HashMap.lookup key sh.state.pub_sub)
      where
        go : (o : Option T) → IsWatched k permit (Db.released b key sh.state o)
        go none = h
        go (some t) = quiet k permit sh.state _ refl refl h

  abbrev Dropped : Option (Unit {0}) × Shared T → Type 0
  Dropped r = IsWatched k (permit || returns r.0) r.1.state

  drop-IsWatched : IsWatched k (permit || returns (Db.drop_guard sh).0) (Db.drop_guard sh).1.state
  unfolding Db.drop_guard
  drop-IsWatched = elim (Bool-cases sh.poisoned) [
    | inl broken ↦
        subst Dropped (sym (locked_poisoned _ sh broken))
          (subst (λ p. IsWatched k p sh.state) (or_false permit) h)
    | inr sound ↦
        subst Dropped (sym (locked_sound _ sh sound))
          (notified k (permit || true) _ (sym (or_true permit)))
  ]

  set_silent :
      (x : Env) (now : Instant) (key value : Bytes) (expire : Option Duration) (sh' : Shared T)
      → IsConsistent sh.state
      → Db.set x now key value expire sh ≡ (some false, sh')
      → IsWatched k permit sh'.state
  unfolding Db.store
  set_silent x now key value expire sh' cons e = record {
    watched = λ o w. elim (h.watched o w) [
      | inl p ↦ inl p
      | inr covers ↦ inr λ u first.
          let (v, old, le) = set-wakes_in_time x now key value expire sh sh' u cons e first in
          let (t, same, le') = covers v old in (t, same, omega arith)
    ];
    checked = λ p d.
        let (when, done) = set_returned x now key value expire sh sh' false e in
        h.checked p (sym (ap (λ (q : Shared T). q.state.shutdown) done.after) ∙ d);
  }

  set_panics :
      (x : Env) (now : Instant) (key value : Bytes) (expire : Option Duration) (sh' : Shared T)
      → Db.set x now key value expire sh ≡ (none, sh')
      → sh'.state ≡ sh.state
  unfolding Db.set
  set_panics x now key value expire sh' e = locked-none _ sh sh' e

  set-IsWatched :
      (x : Env) (now : Instant) (key value : Bytes) (expire : Option Duration)
      → IsConsistent sh.state
      → IsWatched k
          (permit || notifies (Db.set x now key value expire sh).0)
          (Db.set x now key value expire sh).1.state
  set-IsWatched x now key value expire cons = go (Db.set x now key value expire sh) refl
    where
      go :
          (r : Option Bool × Shared T)
          → Db.set x now key value expire sh ≡ r
          → IsWatched k (permit || notifies r.0) r.1.state
      go (none, sh') e =
          subst (λ st. IsWatched k (permit || false) st)
            (sym (set_panics x now key value expire sh' e))
            (subst (λ p. IsWatched k p sh.state) (or_false permit) h)
      go (some true, sh') e = notified k (permit || true) sh'.state (sym (or_true permit))
      go (some false, sh') e =
          subst (λ p. IsWatched k p sh'.state) (or_false permit)
            (set_silent x now key value expire sh' cons e)

-- The steps of the task.
module _ {T : Type 0} (permit : Bool) (sh : Shared T) where
  look-IsWatched : IsWatched (after_look (Db.is_shutdown sh).0) permit (Db.is_shutdown sh).1.state
  unfolding Db.is_shutdown
  look-IsWatched = elim (Bool-cases sh.poisoned) [
    | inl broken ↦ subst Looked (sym (locked_poisoned _ sh broken)) (over permit sh.state)
    | inr sound ↦ subst Looked (sym (locked_sound _ sh sound)) (go sh.state.shutdown refl)
  ]
    where
      Looked : Option Bool × Shared T → Type 0
      Looked r = IsWatched (after_look r.0) permit r.1.state

      go : (d : Bool) → sh.state.shutdown ≡ d → IsWatched (after_look (some d)) permit sh.state
      go true e = over permit sh.state
      go false e = record { watched = λ o w. cc; checked = λ p d. cc }

  purge-IsWatched :
      (now : Instant)
      → IsConsistent sh.state
      → IsWatched purging permit sh.state
      → IsWatched
          (after_purge (Db.purge_expired_keys now sh).0)
          permit
          (Db.purge_expired_keys now sh).1.state
  unfolding Db.purge_expired_keys next_expiration
  purge-IsWatched now cons h = elim (Bool-cases sh.poisoned) [
    | inl broken ↦ subst Purged (sym (locked_poisoned _ sh broken)) (over permit sh.state)
    | inr sound ↦
        subst Purged (sym (locked_sound _ sh sound)) (elim (Bool-cases sh.state.shutdown) [
          | inl down ↦
              notified (waiting (Db.purge_state now sh.state).0) permit _ (h.checked refl down)
          | inr running ↦
              let p = purge_state-IsPurged now sh.state cons running in
              record {
                watched = λ o w.
                    inr λ u first. (u, sym (waiting_eq w) ∙ p.next_is_first ∙ first, omega arith);
                checked = λ e d. cc;
              }
        ])
  ]
    where
      Purged : Option (Option Instant) × Shared T → Type 0
      Purged r = IsWatched (after_purge r.0) permit r.1.state

module _ {T R : Type 0} {x : Env} {b : Broadcast T R} where
  Moves-IsConsistent :
      {s s' : World T} → Moves x b s s' → IsConsistent s.db.state → IsConsistent s'.db.state
  Moves-IsConsistent (sets now key value expire) h =
      Step-IsConsistent {x = x} {b = b} (Steps.sets now key value expire) h
  Moves-IsConsistent (gets key) h = Step-IsConsistent {x = x} {b = b} (Steps.gets key) h
  Moves-IsConsistent (subscribes key) h = Step-IsConsistent {x = x} {b = b} (Steps.subscribes key) h
  Moves-IsConsistent (leaves key) h = Step-IsConsistent {x = x} {b = b} (Steps.leaves key) h
  Moves-IsConsistent (publishes key value) h =
      Step-IsConsistent {x = x} {b = b} (Steps.publishes key value) h
  Moves-IsConsistent drops h = Step-IsConsistent {x = x} {b = b} Steps.drops h
  Moves-IsConsistent (looks e) h = Step-IsConsistent {x = x} {b = b} Steps.asks h
  Moves-IsConsistent (purges now e) h = Step-IsConsistent {x = x} {b = b} (Steps.purges now) h
  Moves-IsConsistent (wakes now w e le) h = h
  Moves-IsConsistent (hears when e p) h = h

  Moves-IsWatched :
      {s s' : World T}
      → Moves x b s s'
      → IsConsistent s.db.state
      → IsWatched s.task s.permit s.db.state
      → IsWatched s'.task s'.permit s'.db.state
  Moves-IsWatched {s} (sets now key value expire) c h =
      set-IsWatched s.task s.permit s.db h x now key value expire c
  Moves-IsWatched {s} (gets key) c h = get-IsWatched s.task s.permit s.db h key
  Moves-IsWatched {s} (subscribes key) c h = subscribe-IsWatched s.task s.permit s.db h b key
  Moves-IsWatched {s} (publishes key value) c h =
      publish-IsWatched s.task s.permit s.db h b key value
  Moves-IsWatched {s} (leaves key) c h = release-IsWatched s.task s.permit s.db h b key
  Moves-IsWatched {s} drops c h = drop-IsWatched s.task s.permit s.db h
  Moves-IsWatched {s} (looks e) c h = look-IsWatched s.permit s.db
  Moves-IsWatched {s} (purges now e) c h =
      purge-IsWatched s.permit s.db now c (subst (λ k. IsWatched k s.permit s.db.state) e h)
  Moves-IsWatched {s} (wakes now w e le) c h = awake s.permit s.db.state
  Moves-IsWatched {s} (hears when e p) c h = awake false s.db.state

  pub Reaches-IsWatched :
      {s : World T} → Reaches x b s → IsConsistent s.db.state × IsWatched s.task s.permit s.db.state
  Reaches-IsWatched begin = (new-IsConsistent, awake false _)
  Reaches-IsWatched (step r m) =
      let (c, h) = Reaches-IsWatched r in (Moves-IsConsistent m c, Moves-IsWatched m c h)

-- However the operations of the connections and the steps of the background task follow each other:
-- while the task waits and no notification is pending, if an expiry is due, then the task waits for
-- an instant, and one that is not after the first expiry, so it sleeps through none.
pub task-waits_in_time :
    {T R : Type 0} (x : Env) (b : Broadcast T R) (s : World T) (o : Option Instant) (w : Instant)
    → Reaches x b s
    → s.task ≡ waiting o
    → s.permit ≡ false
    → next_expiration s.db.state ≡ some w
    → (v : Instant) × (o ≡ some v) × (v ≤ w)
task-waits_in_time x b s o w r waits unheard due = elim ((Reaches-IsWatched r).1.watched o waits) [
  | inl p ↦ absurd (cc)
  | inr covers ↦ covers w due
]
