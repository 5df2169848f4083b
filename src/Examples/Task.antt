-- ===== src/Examples/Task.antt =====
-- The background task of redis-lib/src/db.rs with a key that expires at 15.
use redis_demo.Base.{ℕ, ◌≤◌, ◌≡◌, refl, false, ◌||◌, codes, Option, some}
use redis_demo.Std.HashMap
use redis_demo.Std.BTreeSet
use redis_demo.Std.BTreeSet.{Instant, before}
use redis_demo.Db
use redis_demo.Db.Task.{
  World, looking, waiting, after_look, after_purge, notifies, start, Reaches, begin, step, sets,
  looks, purges, hears,
}
use redis_demo.Db.Task.Wakes.{task-waits_in_time}
use redis_demo.Db.Task.Expires.{IsSwept, task-sweeps}
use redis_demo.Examples.World.{env, counter}

abbrev looked : World ℕ → World ℕ
looked s = record {
  db = (Db.is_shutdown s.db).1;
  task = after_look (Db.is_shutdown s.db).0;
  permit = s.permit;
}

abbrev purged : Instant → World ℕ → World ℕ
purged now s = record {
  db = (Db.purge_expired_keys now s.db).1;
  task = after_purge (Db.purge_expired_keys now s.db).0;
  permit = s.permit;
}

abbrev heard : World ℕ → World ℕ
heard s = record { db = s.db; task = looking; permit = false }

abbrev with_a : World ℕ
with_a = record {
  db = (Db.set env 5 (codes "a") (codes "1") (some 10) (start {T = ℕ}).db).1;
  task = looking;
  permit = false || notifies (Db.set env 5 (codes "a") (codes "1") (some 10) (start {T = ℕ}).db).0;
}

-- The task purges, hears of the key, and purges again.
abbrev settled : World ℕ
settled = purged 7 (looked (heard (purged 6 (looked with_a))))

settled_reached : Reaches env counter settled
unfolding Db.set Db.new Db.locked Db.deadline Db.store Db.next_expiration Db.is_shutdown
    Db.purge_expired_keys Db.purge_state Db.purge_loop HashMap.lookup HashMap.insert BTreeSet.insert
    before
settled_reached =
    step
      (step
        (step
          (step (step (step begin (sets 5 (codes "a") (codes "1") (some 10))) (looks refl))
            (purges 6 refl))
          (hears (some 15) refl refl))
        (looks refl))
      (purges 7 refl)

settled_waits : (settled.task ≡ waiting (some 15)) × (Db.next_expiration settled.db.state ≡ some 15)
unfolding Db.set Db.new Db.locked Db.deadline Db.store Db.next_expiration Db.is_shutdown
    Db.purge_expired_keys Db.purge_state Db.purge_loop HashMap.lookup HashMap.insert BTreeSet.insert
    before
settled_waits = (refl, refl)

task-waits_in_time_example :
    (v : Instant) × (◌≡◌ {A = Option Instant} (some 15) (some v)) × (v ≤ 15)
task-waits_in_time_example =
    task-waits_in_time env counter settled (some 15) 15 settled_reached settled_waits.0 refl
      settled_waits.1

settled_open : (settled.db.poisoned ≡ false) × (settled.db.state.shutdown ≡ false)
unfolding Db.set Db.new Db.locked Db.deadline Db.store Db.next_expiration Db.is_shutdown
    Db.purge_expired_keys Db.purge_state Db.purge_loop HashMap.lookup HashMap.insert BTreeSet.insert
    before
settled_open = (refl, refl)

task-sweeps_example : (n : ℕ) × ((n ≤ 3) × ((s' : World ℕ) × IsSwept env counter 20 settled n s'))
task-sweeps_example =
    task-sweeps env counter 20 settled settled_reached settled_open.0 settled_open.1
