-- ===== src/Server/Run.antt =====
-- `run` and `Listener::run` (redis-lib/src/server.rs): the listener, its permits and the tasks of the
-- connections, as a relation between the states of the whole server. The semaphore of tokio is the
-- number of its free permits, and the channel of the completed shutdown the number of its senders.
pub mod Bounded
pub mod Legal
pub mod Exit
use redis_demo.Base.{
  ℕ, suc, ◌+◌, ◌-◌, ◌≡◌, Bool, true, false, if◌then◌else◌, List, [], ◌∷◌, ◌++◌, Outcome, ok,
}
use redis_demo.Std.BTreeSet.{Instant}
use redis_demo.Env.{Env}
use redis_demo.Failure.{Failure}
use redis_demo.Db
use redis_demo.Db.{Shared, Broadcast}
use redis_demo.Connection
use redis_demo.Connection.{Stream, Connection}
use redis_demo.Subscriptions.{StreamMap}
use redis_demo.Server.Session
use redis_demo.Server.Session.{Session, Event, reading, returned, turn}

-- `MAX_CONNECTIONS`
abbrev pub max_connections : ℕ
max_connections = 500

-- Where `run` stands: in its `select!`, in the wait for the end of the shutdown, or past its end.
pub data Phase : Type 0 where
  listening completing exited : Phase

-- `Listener`, the tasks that it has spawned, and whether its loop holds a permit for the connection
-- that it waits for.
pub record Server (S M T : Type 0) : Type 0 where
  pub phase : Phase
  pub db : Shared T
  pub free_permits : ℕ
  pub holds_permit : Bool
  pub tasks : List (Session S M)
  pub complete_senders : ℕ

-- The permit that a loop gives back when it is dropped.
abbrev pub given_back : Bool → ℕ → ℕ
given_back true n = suc n
given_back false n = n

-- the task of a new connection
abbrev pub spawned : {S M : Type 0} → S → Session S M
spawned socket = record { mode = reading; dst = Connection.new socket; shutdown = Session.new }

-- The run returned.
abbrev pub is_ok {ℓ} : {A : Type ℓ} → Outcome Failure A → Bool
is_ok (ok a) = true
is_ok _ = false

module _ {S T M : Type 0} where
  -- `run` before its `select!`
  abbrev pub started : Server S M T
  started = record {
    phase = listening;
    db = Db.new;
    free_permits = max_connections;
    holds_permit = false;
    tasks = [];
    complete_senders = 1;
  }

  -- The `select!` of `run` is over: the loop is dropped, and the listener's sender with it.
  abbrev pub stopped : Server S M T → Server S M T
  stopped s = record {
    phase = completing;
    db = s.db;
    free_permits = given_back s.holds_permit s.free_permits;
    holds_permit = false;
    tasks = s.tasks;
    complete_senders = s.complete_senders - 1;
  }

-- A step of the server.
pub data Moves {S T R M : Type 0} (x : Env) (t : Stream S) (p : StreamMap R M) (b : Broadcast T R)
    (s : Server S M T) : Server S M T → Type 0 where
  -- `acquire_owned().await`
  acquires :
      (n : ℕ)
      → s.phase ≡ listening
      → s.holds_permit ≡ false
      → s.free_permits ≡ suc n
      → Moves x t p b s (record {
        phase = listening;
        db = s.db;
        free_permits = n;
        holds_permit = true;
        tasks = s.tasks;
        complete_senders = s.complete_senders;
      })
  -- `accept` returned, and the permit goes to the new task
  accepts :
      (socket : S)
      → s.phase ≡ listening
      → s.holds_permit ≡ true
      → Moves x t p b s (record {
        phase = listening;
        db = s.db;
        free_permits = s.free_permits;
        holds_permit = false;
        tasks = spawned socket ∷ s.tasks;
        complete_senders = s.complete_senders;
      })
  -- `accept` failed, or the shutdown signal came
  stops : s.phase ≡ listening → Moves x t p b s (stopped s)
  -- a task turns on an event
  turns :
      (before after : List (Session S M)) (task task' : Session S M) (event : Event) (db : Shared T)
      → s.tasks ≡ before ++ task ∷ after
      → turn x t p b event task s.db ≡ (ok task', db)
      → Moves x t p b s (record {
        phase = s.phase;
        db = db;
        free_permits = s.free_permits;
        holds_permit = s.holds_permit;
        tasks = before ++ task' ∷ after;
        complete_senders = s.complete_senders;
      })
  -- a task whose turn fails or panics ends, and drops its permit; the turn has dropped the receivers
  -- of its subscriptions
  fails :
      (before after : List (Session S M)) (task : Session S M) (event : Event)
      → s.tasks ≡ before ++ task ∷ after
      → is_ok (turn x t p b event task s.db).0 ≡ false
      → Moves x t p b s (record {
        phase = s.phase;
        db = (turn x t p b event task s.db).1;
        free_permits = suc s.free_permits;
        holds_permit = s.holds_permit;
        tasks = before ++ after;
        complete_senders = s.complete_senders;
      })
  -- a task whose `process` has returned ends, and drops its permit; it holds no receiver, since each
  -- turn that leaves `Subscribe::apply` drops them
  ends :
      (before after : List (Session S M)) (task : Session S M)
      → s.tasks ≡ before ++ task ∷ after
      → task.mode ≡ returned
      → Moves x t p b s (record {
        phase = s.phase;
        db = s.db;
        free_permits = suc s.free_permits;
        holds_permit = s.holds_permit;
        tasks = before ++ after;
        complete_senders = s.complete_senders;
      })
  -- the background task purges
  purges :
      (now : Instant)
      → Moves x t p b s (record {
        phase = s.phase;
        db = (Db.purge_expired_keys now s.db).1;
        free_permits = s.free_permits;
        holds_permit = s.holds_permit;
        tasks = s.tasks;
        complete_senders = s.complete_senders;
      })
  -- `shutdown_complete_rx.recv()` returns once no sender is left; then the database's guard is dropped
  exits :
      s.phase ≡ completing
      → s.complete_senders ≡ 0
      → Moves x t p b s (record {
        phase = exited;
        db = (Db.drop_guard s.db).1;
        free_permits = s.free_permits;
        holds_permit = s.holds_permit;
        tasks = s.tasks;
        complete_senders = s.complete_senders;
      })

-- The states that any sequence of steps reaches.
pub data Reaches {S T R M : Type 0} (x : Env) (t : Stream S) (p : StreamMap R M) (b : Broadcast T R)
    (s : Server S M T) : Server S M T → Type 0 where
  begin : Reaches x t p b s s
  step :
      {s' s'' : Server S M T} → Reaches x t p b s s' → Moves x t p b s' s'' → Reaches x t p b s s''
