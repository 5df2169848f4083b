-- ===== src/Db/Poison.antt =====
-- A SET whose expiry the clock cannot hold panics with the lock held (redis-lib/src/db.rs): from
-- then on every operation of every connection panics.
use redis_demo.Base.{
  ◌+◌, ◌<◌, ◌≡◌, ap, ◌∙◌, true, Bytes, Option, none, some, Bool-cases, inl, inr, lt→ltb,
}
use redis_demo.Std.BTreeSet.{Instant}
use redis_demo.Env.{Env}
use redis_demo.Command.{Duration}
use redis_demo.Db.{
  Broadcast, State, Shared, deadline, set, get, purge_expired_keys, is_shutdown, drop_guard,
  subscribe, publish, release, stored, unlock, locked,
}
use redis_demo.Db.Steps.{Step, Runs, here, next, sets, leaves, locked_poisoned, locked_sound}

module _ {T : Type 0} (x : Env) (now : Instant) (key value : Bytes) (d : Duration) (sh : Shared T)
    (late : x.max_instant < now + d) where
  deadline_overflows : deadline x now (some d) sh.state ≡ none
  unfolding deadline
  deadline_overflows = rw (lt→ltb x.max_instant (now + d) late)

  set_overflows : (set x now key value (some d) sh).1.poisoned ≡ true
  unfolding set
  set_overflows = elim (Bool-cases sh.poisoned) [
    | inl broken ↦ ap (λ r. r.1.poisoned) (locked_poisoned _ sh broken) ∙ broken
    | inr sound ↦
        ap (λ r. r.1.poisoned) (locked_sound _ sh sound)
        ∙ ap (λ o. (unlock sh.state (stored key value sh.state o)).1.poisoned) deadline_overflows
  ]

locked_stays :
    {T A : Type 0} (f : State T → Option (A × State T)) (sh : Shared T)
    → sh.poisoned ≡ true
    → (locked f sh).1.poisoned ≡ true
locked_stays f sh p = ap (λ r. r.1.poisoned) (locked_poisoned f sh p) ∙ p

Step-poisoned :
    {T R : Type 0} {x : Env} {b : Broadcast T R} {sh sh' : Shared T}
    → Step x b sh sh'
    → sh.poisoned ≡ true
    → sh'.poisoned ≡ true
unfolding set get purge_expired_keys is_shutdown drop_guard subscribe publish release
Step-poisoned {sh} (sets now key value expire) p = locked_stays _ sh p
Step-poisoned {sh} (leaves key) p = p
Step-poisoned {sh} _ p = locked_stays _ sh p

Runs-poisoned :
    {T R : Type 0} {x : Env} {b : Broadcast T R} {sh sh' : Shared T}
    → Runs x b sh sh'
    → sh.poisoned ≡ true
    → sh'.poisoned ≡ true
Runs-poisoned here p = p
Runs-poisoned (next r step) p = Step-poisoned step (Runs-poisoned r p)

-- Every operation panics.
pub record IsDead {T R : Type 0} (x : Env) (b : Broadcast T R) (sh : Shared T) : Type 0 where
  pub get_panics : (key : Bytes) → (get key sh).0 ≡ none
  pub set_panics :
      (now : Instant) (key value : Bytes) (expire : Option Duration)
      → (set x now key value expire sh).0 ≡ none
  pub subscribe_panics : (key : Bytes) → (subscribe b key sh).0 ≡ none
  pub publish_panics : (key value : Bytes) → (publish b key value sh).0 ≡ none
  pub purge_panics : (now : Instant) → (purge_expired_keys now sh).0 ≡ none

IsDead-poisoned :
    {T R : Type 0} (x : Env) (b : Broadcast T R) (sh : Shared T)
    → sh.poisoned ≡ true
    → IsDead x b sh
unfolding set get purge_expired_keys subscribe publish
IsDead-poisoned x b sh p = record {
  get_panics = λ key. ap (λ r. r.0) (locked_poisoned _ sh p);
  set_panics = λ now key value expire. ap (λ r. r.0) (locked_poisoned _ sh p);
  subscribe_panics = λ key. ap (λ r. r.0) (locked_poisoned _ sh p);
  publish_panics = λ key value. ap (λ r. r.0) (locked_poisoned _ sh p);
  purge_panics = λ now. ap (λ r. r.0) (locked_poisoned _ sh p);
}

-- After a `set` whose instant is past the last one that the clock can hold, and whatever operations
-- follow it, every `get`, `set`, `subscribe`, `publish` and purge panics.
pub set_overflow-IsDead :
    {T R : Type 0} (x : Env) (b : Broadcast T R) (now : Instant) (key value : Bytes) (d : Duration)
    (sh sh' : Shared T)
    → x.max_instant < now + d
    → Runs x b (set x now key value (some d) sh).1 sh'
    → IsDead x b sh'
set_overflow-IsDead x b now key value d sh sh' late r =
    IsDead-poisoned x b sh' (Runs-poisoned r (set_overflows x now key value d sh late))
