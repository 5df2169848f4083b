-- ===== src/Examples/Keys.antt =====
-- redis-lib/src/db.rs at small databases.
use redis_demo.Base.{
  ◌+◌, ◌^◌, ◌≤◌, ◌≡◌, refl, ℕ, false, codes, some, none, arith, if◌then◌else◌, ◌is◌,
}
use redis_demo.Std.HashMap
use redis_demo.Std.BTreeSet.{Instant, before}
use redis_demo.Std.BTreeSet
use redis_demo.Db.{
  Shared, set, get, bytes_of, next_expiration, purge_state, locked, deadline, store,
  purge_expired_keys, subscribe, publish, new,
}
use redis_demo.Db.Consistent.{IsConsistent}
use redis_demo.Db.Purge.{IsPurged, keep_live, purge_state-IsPurged}
use redis_demo.Db.Steps.{Runs, here, next, sets, purges, Runs-IsConsistent}
use redis_demo.Db.Answers.{get-purge}
use redis_demo.Db.Wake.{set-wakes_in_time}
use redis_demo.Db.Poison.{IsDead, set_overflow-IsDead}
use redis_demo.Db.PubSub.{listeners, publish-subscribe}
use redis_demo.Examples.World.{env, counter}

-- The key "a" expires at 15, and the key "b" never.
abbrev with_a : Shared ℕ
with_a = (set env 5 (codes "a") (codes "1") (some 10) new).1

abbrev with_b : Shared ℕ
with_b = (set env 6 (codes "b") (codes "2") none with_a).1

runs_b : Runs env counter new with_b
runs_b =
    next (next here (sets 5 (codes "a") (codes "1") (some 10)))
      (sets 6 (codes "b") (codes "2") none)

with_b-IsConsistent : IsConsistent with_b.state
with_b-IsConsistent = Runs-IsConsistent env counter with_b runs_b

Runs-IsConsistent_example : IsConsistent (purge_expired_keys 20 with_b).1.state
Runs-IsConsistent_example =
    Runs-IsConsistent env counter (purge_expired_keys 20 with_b).1 (next runs_b (purges 20))

with_b_sound : (with_b.poisoned ≡ false) × (with_b.state.shutdown ≡ false)
unfolding set new locked deadline store
with_b_sound = (refl, refl)

purge_state-IsPurged_example :
    IsPurged 20 with_b.state (purge_state 20 with_b.state).0 (purge_state 20 with_b.state).1
purge_state-IsPurged_example =
    purge_state-IsPurged 20 with_b.state with_b-IsConsistent with_b_sound.1

get-purge_example :
    (get (codes "a") (purge_expired_keys 20 with_b).1).0
    ≡ some (bytes_of (keep_live 20 (HashMap.lookup (codes "a") with_b.state.entries)))
get-purge_example =
    get-purge 20 with_b (codes "a") with_b-IsConsistent with_b_sound.0 with_b_sound.1

-- The key "c" is set to expire at 40, after the instant that the background task waits for.
abbrev with_c : Shared ℕ
with_c = (set env 7 (codes "c") (codes "3") (some 33) with_b).1

returns_c : set env 7 (codes "c") (codes "3") (some 33) with_b ≡ (some false, with_c)
unfolding set new locked deadline store next_expiration HashMap.lookup HashMap.insert
    BTreeSet.insert
returns_c = refl

first_c : next_expiration with_c.state ≡ some 15
unfolding set new locked deadline store next_expiration HashMap.lookup HashMap.insert
    BTreeSet.insert before
first_c = refl

set-wakes_in_time_example : (v : Instant) × (next_expiration with_b.state ≡ some v) × (v ≤ 15)
set-wakes_in_time_example =
    set-wakes_in_time env 7 (codes "c") (codes "3") (some 33) with_b with_c 15 with_b-IsConsistent
      returns_c first_c

set_overflow-IsDead_example :
    IsDead env counter
      (purge_expired_keys 9 (set env 8 (codes "k") (codes "v") (some (10 ^ 18)) with_b).1).1
set_overflow-IsDead_example =
    set_overflow-IsDead env counter 8 (codes "k") (codes "v") (10 ^ 18) with_b
      (purge_expired_keys 9 (set env 8 (codes "k") (codes "v") (some (10 ^ 18)) with_b).1).1
      (omega arith) (next here (purges 9))

publish-subscribe_example :
    (publish counter (codes "news") (codes "m") (subscribe counter (codes "news") with_b).1).0
    ≡ some
        (listeners counter (codes "news") with_b + (if codes "news" is codes "news" then 1 else 0))
publish-subscribe_example =
    publish-subscribe counter with_b with_b_sound.0 (codes "news") (codes "news") (codes "m")
