-- ===== src/Db/Spec/Kept.antt =====
-- Each operation of the database (redis-lib/src/db.rs) keeps the promise.
use redis_demo.Base.{
  ◌+◌, ◌≡◌, refl, sym, ◌∙◌, ap, subst, Bool, true, false, Bytes, Option, none, some, ◌is◌,
  if◌then◌else◌, arith, ltb, Bool-cases, inl, inr,
}
use redis_demo.Std.HashMap
use redis_demo.Std.BTreeSet.{Instant}
use redis_demo.Env.{Env}
use redis_demo.Command.{Duration}
use redis_demo.Db
use redis_demo.Db.{State, Shared, Broadcast, deadline, locked, unlock}
use redis_demo.Db.Consistent.{IsConsistent}
use redis_demo.Db.Purge.{purge_state-IsPurged}
use redis_demo.Db.Steps
use redis_demo.Db.Steps.{locked_sound, Step-IsConsistent, new-IsConsistent}
use redis_demo.Db.Answers.{set_returned, lookup-store}
use redis_demo.Db.PubSub.{
  heard, listeners, send_on-heard, subscribe-heard, send_on-keeps, release-listeners,
}
use redis_demo.Db.Spec.{
  Call, sets, gets, subscribes, publishes, purges, leaves, Reply, done, found, reached, Spec,
  instant, answer, told, execute, fits, view,
}

-- No panic and no shutdown so far.
pub record IsOpen {T : Type 0} (sh : Shared T) : Type 0 where
  pub consistent : IsConsistent sh.state
  pub sound : sh.poisoned ≡ false
  pub running : sh.state.shutdown ≡ false

module _ {T R : Type 0} (x : Env) (b : Broadcast T R) where
  -- The outcome of a call on `sh`: a panic, or what the promise says.
  pub data IsKept (call : Call) (sh : Shared T) : Option Reply × Shared T → Type 0 where
    panicked : (sh' : Shared T) → fits x call ≡ false → IsKept call sh (none, sh')
    answered :
        (sh' : Shared T)
        → fits x call ≡ true
        → view x b sh' ≡ (answer call (view x b sh)).1
        → IsOpen sh'
        → IsKept call sh (some (answer call (view x b sh)).0, sh')

  deadline_instant :
      (now : Instant) (expire : Option Duration) (st : State T) (when : Option Instant)
      (notify : Bool)
      → deadline x now expire st ≡ some (when, notify)
      → when ≡ instant now expire
  unfolding deadline
  deadline_instant now none st when notify e = cc
  deadline_instant now (some d) st when notify e = ground arith

  set_fits :
      (now : Instant) (key value : Bytes) (expire : Option Duration) (st : State T)
      (when : Option Instant) (notify : Bool)
      → deadline x now expire st ≡ some (when, notify)
      → fits x (sets now key value expire) ≡ true
  unfolding deadline
  set_fits now key value none st when notify e = refl
  set_fits now key value (some d) st when notify e = ground arith

  some-none :
      {A : Type 0} {a : A} {s s' : Shared T}
      → ◌≡◌ {A = Option A × Shared T} (some a, s) (none, s')
      → ⊥
  some-none e = cc

  deadline_early :
      (now : Instant) (d : Duration) (st : State T)
      → ltb x.max_instant (now + d) ≡ false
      → deadline x now (some d) st
        ≡ some (some (now + d), Db.precedes (now + d) (Db.next_expiration st))
  unfolding deadline
  deadline_early now d st early = rw early refl

  set_panics :
      (now : Instant) (key value : Bytes) (expire : Option Duration) (sh sh' : Shared T)
      → sh.poisoned ≡ false
      → Db.set x now key value expire sh ≡ (none, sh')
      → fits x (sets now key value expire) ≡ false
  unfolding Db.set deadline
  set_panics now key value none sh sh' sound e =
      absurd (some-none (sym (locked_sound _ sh sound) ∙ e))
  set_panics now key value (some d) sh sh' sound e =
      elim (Bool-cases (ltb x.max_instant (now + d))) [
        | inl late ↦ rw late refl
        | inr early ↦ absurd (
            some-none (
              sym (
                locked_sound _ sh sound
                ∙ ap (λ o. unlock sh.state (Db.stored key value sh.state o))
                    (deadline_early now d sh.state early))
              ∙ e))
      ]

  spec_eq :
      {m m' : Spec}
      → ((j : Bytes) → m.values j ≡ m'.values j)
      → ((j : Bytes) → m.receivers j ≡ m'.receivers j)
      → m ≡ m'
  spec_eq h k = λ i. record { values = λ j. h j i; receivers = λ j. k j i }

  module _ (sh : Shared T) (h : IsOpen sh) where
    set-IsKept :
        (now : Instant) (key value : Bytes) (expire : Option Duration)
        → IsKept (sets now key value expire) sh (execute x b (sets now key value expire) sh)
    unfolding Db.store
    set-IsKept now key value expire = go (Db.set x now key value expire sh) refl
      where
        go :
            (r : Option Bool × Shared T)
            → Db.set x now key value expire sh ≡ r
            → IsKept (sets now key value expire) sh (told (λ _. done) r)
        go (none, sh') e = panicked sh' (set_panics now key value expire sh sh' h.sound e)
        go (some notify, sh') e =
            let (when, d) = set_returned x now key value expire sh sh' notify e in
            let at_instant = deadline_instant now expire sh.state when notify d.instant in
            answered sh' (set_fits now key value expire sh.state when notify d.instant)
              (spec_eq
                (λ j.
                  ap (λ (s : Shared T). HashMap.lookup j s.state.entries) d.after
                  ∙ lookup-store key value j when sh.state
                  ∙ ap
                      (λ w.
                        if key is j
                        then some (record { bytes = value; expires_at = w })
                        else HashMap.lookup j sh.state.entries)
                      at_instant)
                (λ j. ap (λ (s : Shared T). listeners b j s) d.after))
              (record {
                consistent =
                    subst (λ (r : Option Bool × Shared T). IsConsistent r.1.state) e
                      (Step-IsConsistent {x = x} {b = b} (Steps.sets now key value expire)
                        h.consistent);
                sound = ap (λ (s : Shared T). s.poisoned) d.after;
                running = ap (λ (s : Shared T). s.state.shutdown) d.after ∙ h.running;
              })

    get-IsKept : (key : Bytes) → IsKept (gets key) sh (execute x b (gets key) sh)
    unfolding Db.get
    get-IsKept key =
        subst (λ r. IsKept (gets key) sh (told found r)) (sym (locked_sound _ sh h.sound))
          (answered _ refl refl
            (record { consistent = h.consistent; sound = refl; running = h.running }))

    purge-IsKept : (now : Instant) → IsKept (purges now) sh (execute x b (purges now) sh)
    unfolding Db.purge_expired_keys
    purge-IsKept now =
        let p = purge_state-IsPurged now sh.state h.consistent h.running in
        subst (λ r. IsKept (purges now) sh (told (λ _. done) r)) (sym (locked_sound _ sh h.sound))
          (answered _ refl
            (spec_eq p.live (λ j. ap (λ m. heard b (HashMap.lookup j m)) p.same_channels))
            (record {
              consistent = p.consistent;
              sound = refl;
              running = p.same_shutdown ∙ h.running;
            }))

    pub subscribe-IsOpen :
        (key : Bytes) (o : Option T)
        → IsOpen (record { state = (Db.subscribe_channel b key sh.state o).1; poisoned = false })
    subscribe-IsOpen key none = record {
      consistent = record { sorted = h.consistent.sorted; linked = h.consistent.linked };
      sound = refl;
      running = h.running;
    }
    subscribe-IsOpen key (some t) = record {
      consistent = record { sorted = h.consistent.sorted; linked = h.consistent.linked };
      sound = refl;
      running = h.running;
    }

    subscribe_values :
        (key : Bytes) (o : Option T)
        → (Db.subscribe_channel b key sh.state o).1.entries ≡ sh.state.entries
    subscribe_values key none = refl
    subscribe_values key (some t) = refl

    subscribe-IsKept : (key : Bytes) → IsKept (subscribes key) sh (execute x b (subscribes key) sh)
    unfolding Db.subscribe
    subscribe-IsKept key =
        let o = HashMap.lookup key sh.state.pub_sub in
        subst (λ r. IsKept (subscribes key) sh (told (λ _. done) r))
          (sym (locked_sound _ sh h.sound))
          (answered _ refl
            (spec_eq (λ j. ap (HashMap.lookup j) (subscribe_values key o))
              (λ j. subscribe-heard b key j sh.state))
            (subscribe-IsOpen key o))

    publish-IsOpen :
        (key value : Bytes) (o : Option T)
        → IsOpen (record { state = (Db.send_on b key value sh.state o).1; poisoned = false })
    publish-IsOpen key value none = record {
      consistent = h.consistent;
      sound = refl;
      running = h.running;
    }
    publish-IsOpen key value (some t) = record {
      consistent = record { sorted = h.consistent.sorted; linked = h.consistent.linked };
      sound = refl;
      running = h.running;
    }

    publish_values :
        (key value : Bytes) (o : Option T)
        → (Db.send_on b key value sh.state o).1.entries ≡ sh.state.entries
    publish_values key value none = refl
    publish_values key value (some t) = refl

    publish-IsKept :
        (key value : Bytes) → IsKept (publishes key value) sh (execute x b (publishes key value) sh)
    unfolding Db.publish
    publish-IsKept key value =
        let o = HashMap.lookup key sh.state.pub_sub in
        subst (λ r. IsKept (publishes key value) sh (told reached r))
          (sym (locked_sound _ sh h.sound))
          (subst
            (λ n. IsKept (publishes key value) sh (
              some (reached n),
              record { state = (Db.send_on b key value sh.state o).1; poisoned = false },
            ))
            (sym (send_on-heard b key value sh.state o))
            (answered _ refl
              (spec_eq (λ j. ap (HashMap.lookup j) (publish_values key value o))
                (λ j. send_on-keeps b key value j sh.state))
              (publish-IsOpen key value o)))

    pub release-IsOpen : (key : Bytes) → IsOpen (Db.release b key sh)
    unfolding Db.release
    release-IsOpen key = record {
      consistent = Step-IsConsistent {x = x} {b = b} {sh = sh} (Steps.leaves key) h.consistent;
      sound = h.sound;
      running = go (HashMap.lookup key sh.state.pub_sub);
    }
      where
        go : (o : Option T) → (Db.released b key sh.state o).shutdown ≡ false
        go none = h.running
        go (some t) = h.running

    release_values : (key : Bytes) → (Db.release b key sh).state.entries ≡ sh.state.entries
    unfolding Db.release
    release_values key = go (HashMap.lookup key sh.state.pub_sub)
      where
        go : (o : Option T) → (Db.released b key sh.state o).entries ≡ sh.state.entries
        go none = refl
        go (some t) = refl

    release-IsKept : (key : Bytes) → IsKept (leaves key) sh (execute x b (leaves key) sh)
    release-IsKept key =
        answered _ refl
          (spec_eq (λ j. ap (HashMap.lookup j) (release_values key))
            (λ j. release-listeners b key j sh))
          (release-IsOpen key)

    pub execute-IsKept : (call : Call) → IsKept call sh (execute x b call sh)
    execute-IsKept (sets now key value expire) = set-IsKept now key value expire
    execute-IsKept (gets key) = get-IsKept key
    execute-IsKept (subscribes key) = subscribe-IsKept key
    execute-IsKept (publishes key value) = publish-IsKept key value
    execute-IsKept (purges now) = purge-IsKept now
    execute-IsKept (leaves key) = release-IsKept key
