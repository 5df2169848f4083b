-- ===== src/Server/Run/Legal.antt =====
-- What all tasks of the server (redis-lib/src/server.rs) together do to the database, and what each
-- of them writes.
use redis_demo.Base.{◌≡◌, refl, ap, subst, List, [], ◌∷◌, ◌++◌, All, All-append, Ensures-ok}
use redis_demo.Env.{Env}
use redis_demo.Db
use redis_demo.Db.{Shared, Broadcast}
use redis_demo.Db.Steps
use redis_demo.Db.Steps.{Runs, here, next}
use redis_demo.Connection
use redis_demo.Connection.{Stream, Connection}
use redis_demo.Connection.Speaks.{Speaks, Speaks-quiet, Speaks-trans}
use redis_demo.Subscriptions.{StreamMap}
use redis_demo.Server.Session.{Session}
use redis_demo.Server.Session.Database.{Runs-trans, turn-Runs}
use redis_demo.Server.Session.Speaks.{turn-Speaks}
use redis_demo.Server.Run.{
  Server, started, Moves, acquires, accepts, stops, turns, fails, ends, purges, exits, Reaches,
  begin, step,
}

module _ {ℓ κ} {A : Type ℓ} (P : A → Type κ) where
  All-front : (xs ys : List A) → All P (xs ++ ys) → All P xs
  All-front [] ys h = tt
  All-front (x ∷ xs) ys (h, hs) = (h, All-front xs ys hs)

  All-back : (xs ys : List A) → All P (xs ++ ys) → All P ys
  All-back [] ys h = h
  All-back (x ∷ xs) ys (h, hs) = All-back xs ys hs

module _ {S T R M : Type 0} (x : Env) (t : Stream S) (p : StreamMap R M) (b : Broadcast T R) where
  -- The task has written whole frames and nothing else since its connection was new.
  abbrev pub HasSpoken : Session S M → Type 0
  HasSpoken task = (socket : S) × Speaks t (Connection.new socket) task.dst

  -- The database is what a sequence of its operations makes of a new one.
  pub record IsLegal (s : Server S M T) : Type 0 where
    pub called : Runs x b Db.new s.db
    pub spoken : All HasSpoken s.tasks

  module _ (before after tasks : List (Session S M)) (task : Session S M)
      (e : tasks ≡ before ++ task ∷ after) (h : All HasSpoken tasks) where
    task_then : All HasSpoken (task ∷ after)
    task_then = All-back HasSpoken before (task ∷ after) (subst (All HasSpoken) e h)

    others-HaveSpoken : All HasSpoken before
    others-HaveSpoken = All-front HasSpoken before (task ∷ after) (subst (All HasSpoken) e h)

    without-HaveSpoken : All HasSpoken (before ++ after)
    without-HaveSpoken = All-append HasSpoken before after others-HaveSpoken task_then.1

    with-HaveSpoken :
        (task' : Session S M)
        → Speaks t task.dst task'.dst
        → All HasSpoken (before ++ task' ∷ after)
    with-HaveSpoken task' more =
        let (socket, so_far) = task_then.0 in
        All-append HasSpoken before (task' ∷ after) others-HaveSpoken (
          (socket, Speaks-trans t (Connection.new socket) task.dst task'.dst so_far more),
          task_then.1,
        )

  Moves-IsLegal : {s s' : Server S M T} → Moves x t p b s s' → IsLegal s → IsLegal s'
  Moves-IsLegal (acquires n l none e) h = record { called = h.called; spoken = h.spoken }
  Moves-IsLegal (accepts socket l one) h = record {
    called = h.called;
    spoken = ((socket, Speaks-quiet t _ _ refl), h.spoken);
  }
  Moves-IsLegal (stops l) h = record { called = h.called; spoken = h.spoken }
  Moves-IsLegal {s} (turns before after task task' event db e r) h = record {
    called =
        subst (Runs x b Db.new) (ap (λ q. q.1) r)
          (Runs-trans x t p b h.called (turn-Runs x t p b event task s.db));
    spoken =
        with-HaveSpoken before after s.tasks task e h.spoken task'
          (Ensures-ok (turn-Speaks x t p b event task s.db) (ap (λ q. q.0) r));
  }
  Moves-IsLegal {s} (fails before after task event e bad) h = record {
    called = Runs-trans x t p b h.called (turn-Runs x t p b event task s.db);
    spoken = without-HaveSpoken before after s.tasks task e h.spoken;
  }
  Moves-IsLegal {s} (ends before after task e over) h = record {
    called = h.called;
    spoken = without-HaveSpoken before after s.tasks task e h.spoken;
  }
  Moves-IsLegal (purges now) h = record {
    called = next h.called (Steps.purges now);
    spoken = h.spoken;
  }
  Moves-IsLegal (exits l e) h = record { called = next h.called Steps.drops; spoken = h.spoken }

  -- In every state that the server reaches, whatever connections come, whatever their tasks receive
  -- and in whatever order they turn: what all tasks together have done to the database is a sequence
  -- of whole operations of `Db` on a new one and of drops of receivers; and each task has written some frames since its
  -- connection was accepted, each whole and in its wire form, and nothing else.
  pub Reaches-IsLegal : (s : Server S M T) → Reaches x t p b started s → IsLegal s
  Reaches-IsLegal _ begin = record { called = here; spoken = tt }
  Reaches-IsLegal _ (step r m) = Moves-IsLegal m (Reaches-IsLegal _ r)
