-- ===== src/Server/Run/Exit.antt =====
-- The end of `run` (redis-lib/src/server.rs).
use redis_demo.Base.{◌-◌, ◌≡◌, refl, ap}
use redis_demo.Env.{Env}
use redis_demo.Db.{Broadcast}
use redis_demo.Connection.{Stream}
use redis_demo.Subscriptions.{StreamMap}
use redis_demo.Server.Run.{
  Server, listening, exited, started, stopped, Moves, acquires, accepts, stops, turns, fails, ends,
  purges, exits, Reaches, begin, step,
}

module _ {S T R M : Type 0} (x : Env) (t : Stream S) (p : StreamMap R M) (b : Broadcast T R) where
  -- No task holds a sender of the channel: while `run` listens, the listener's is the only one.
  Moves-one :
      {s s' : Server S M T}
      → Moves x t p b s s'
      → (s.phase ≡ listening → s.complete_senders ≡ 1)
      → s'.phase ≡ listening
      → s'.complete_senders ≡ 1
  Moves-one (acquires n l none e) h l' = h l
  Moves-one (accepts socket l one) h l' = h l
  Moves-one (stops l) h l' = cc
  Moves-one (turns before after task task' event db e r) h l' = h l'
  Moves-one (fails before after task event e bad) h l' = h l'
  Moves-one (ends before after task e over) h l' = h l'
  Moves-one (purges now) h l' = h l'
  Moves-one (exits l e) h l' = cc

  Reaches-one :
      {s : Server S M T} → Reaches x t p b started s → s.phase ≡ listening → s.complete_senders ≡ 1
  Reaches-one begin l = refl
  Reaches-one (step r m) l = Moves-one m (Reaches-one r) l

  -- From every state in which the server still listens, `run` can come to its end in two steps, the
  -- shutdown signal and the wait for the completed shutdown, while every task that was active is
  -- still there: the wait does not wait for the tasks.
  pub run_exits :
      (s : Server S M T)
      → Reaches x t p b started s
      → s.phase ≡ listening
      → (s' : Server S M T) × Reaches x t p b s s' × (s'.phase ≡ exited) × (s'.tasks ≡ s.tasks)
  run_exits s r l =
      let none_left : (stopped s).complete_senders ≡ 0 = ap (λ n. n - 1) (Reaches-one r l) in
      (_, step (step begin (stops l)) (exits refl none_left), refl, refl)
