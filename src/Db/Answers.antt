-- ===== src/Db/Answers.antt =====
-- What the operations of redis-lib/src/db.rs answer after one another.
use redis_demo.Base.{
  ◌≡◌, refl, sym, ap, ◌∙◌, Bool, false, Bytes, Option, none, some, if◌then◌else◌, Bool-cases, inl,
  inr, arith, ◌is◌,
}
use redis_demo.Std.HashMap
use redis_demo.Std.BTreeSet.{Instant}
use redis_demo.Env.{Env}
use redis_demo.Command.{Duration}
use redis_demo.Db.Consistent.{IsConsistent}
use redis_demo.Db.Purge.{keep_live, purge_state-IsPurged}
use redis_demo.Db.Steps.{locked_poisoned, locked_sound}
use redis_demo.Db.{
  State, Shared, deadline, store, bytes_of, stored, unlock, set, get, purge_state,
  purge_expired_keys,
}

pub get_sound :
    {T : Type 0} (j : Bytes) (sh : Shared T)
    → sh.poisoned ≡ false
    → (get j sh).0 ≡ some (bytes_of (HashMap.lookup j sh.state.entries))
unfolding get
get_sound j sh sound = ap (λ r. r.0) (locked_sound _ sh sound)

pub lookup-store :
    {T : Type 0} (key value j : Bytes) (when : Option Instant) (st : State T)
    → HashMap.lookup j (store key value when st).entries ≡ (
        if key is j
        then some (record { bytes = value; expires_at = when })
        else HashMap.lookup j st.entries)
unfolding store
lookup-store key value j when st = HashMap.lookup-insert key j _ st.entries

-- What it means that `set` returned.
pub record IsSetDone {T : Type 0} (x : Env) (now : Instant) (key value : Bytes)
    (expire : Option Duration) (sh : Shared T) (notify : Bool) (sh' : Shared T)
    (when : Option Instant) : Type 0 where
  pub sound : sh.poisoned ≡ false
  pub instant : deadline x now expire sh.state ≡ some (when, notify)
  pub after : sh' ≡ record { state = store key value when sh.state; poisoned = false }

module _ {T : Type 0} (x : Env) (now : Instant) (key value : Bytes) (expire : Option Duration)
    (sh sh' : Shared T) (notify : Bool)
    (h : set x now key value expire sh ≡ (some notify, sh')) where
  pub set_returned : (when : Option Instant) × IsSetDone x now key value expire sh notify sh' when
  unfolding set
  set_returned = elim (Bool-cases sh.poisoned) [
    | inl broken ↦ absurd (none_some (sym (locked_poisoned _ sh broken) ∙ h))
    | inr sound ↦ go sound (deadline x now expire sh.state) refl (sym (locked_sound _ sh sound) ∙ h)
  ]
    where
      none_some :
          {s s' : Shared T} → ◌≡◌ {A = Option Bool × Shared T} (none, s) (some notify, s') → ⊥
      none_some e = cc

      go :
          sh.poisoned ≡ false
          → (o : Option (Option Instant × Bool)) → deadline x now expire sh.state ≡ o
          → unlock sh.state (stored key value sh.state o) ≡ (some notify, sh')
          → (when : Option Instant) × IsSetDone x now key value expire sh notify sh' when
      go sound none e k = absurd (none_some k)
      go sound (some (when, n)) e k =
          (when, record { sound = sound; instant = e ∙ ap (λ m. some (when, m)) (cc); after = cc })

  -- After a `set` that returned, `get` answers the new value at its key, and at any other key what
  -- it answered before.
  pub get-set : (j : Bytes) → (get j sh').0 ≡ (if key is j then some (some value) else (get j sh).0)
  get-set j =
      let (when, d) = set_returned in
      get_sound j sh' (ap (λ (s : Shared T). s.poisoned) d.after)
      ∙ ap (λ (s : Shared T). some (bytes_of (HashMap.lookup j s.state.entries))) d.after
      ∙ ap (λ o. some (bytes_of o)) (lookup-store key value j when sh.state)
      ∙ rw (get_sound j sh d.sound) (ground arith)

-- After a purge at `now` that returned, `get` answers at each key what it answered before if the
-- entry does not expire or expires after `now`, and otherwise that there is no value.
pub get-purge :
    {T : Type 0} (now : Instant) (sh : Shared T) (j : Bytes)
    → IsConsistent sh.state
    → sh.poisoned ≡ false
    → sh.state.shutdown ≡ false
    → (get j (purge_expired_keys now sh).1).0
      ≡ some (bytes_of (keep_live now (HashMap.lookup j sh.state.entries)))
unfolding purge_expired_keys
get-purge now sh j h sound running =
    let p = purge_state-IsPurged now sh.state h running in
    ap (λ r. (get j r.1).0) (locked_sound (λ st. some (purge_state now st)) sh sound)
    ∙ get_sound j _ refl
    ∙ ap (λ o. some (bytes_of o)) (p.live j)
