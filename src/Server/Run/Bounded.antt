-- ===== src/Server/Run/Bounded.antt =====
-- Permits, tasks and the database of the server (redis-lib/src/server.rs).
use redis_demo.Base.{
  ℕ, suc, ◌+◌, ◌≤◌, ◌≡◌, refl, ap, subst, Bool, true, false, List, ◌∷◌, ◌++◌, length, length-append,
  arith,
}
use redis_demo.Env.{Env}
use redis_demo.Db.{Shared, Broadcast}
use redis_demo.Db.Consistent.{IsConsistent}
use redis_demo.Db.Steps
use redis_demo.Db.Steps.{Runs, here, next, Step-IsConsistent, new-IsConsistent}
use redis_demo.Connection.{Stream}
use redis_demo.Subscriptions.{StreamMap}
use redis_demo.Server.Session.Database.{turn-Runs}
use redis_demo.Server.Run.{
  Server, max_connections, started, given_back, Moves, acquires, accepts, stops, turns, fails, ends,
  purges, exits, Reaches, begin, step,
}

abbrev held : Bool → ℕ
held true = 1
held false = 0

-- Every permit is free, held by the loop of the listener, or held by a task; the database is
-- consistent.
pub record IsBounded {S M T : Type 0} (s : Server S M T) : Type 0 where
  pub permits : s.free_permits + held s.holds_permit + length s.tasks ≡ max_connections
  pub consistent : IsConsistent s.db.state

given_back-held : (h : Bool) (n : ℕ) → given_back h n ≡ n + held h
given_back-held true n = omega arith
given_back-held false n = omega arith

one_less {ℓ} :
    {A : Type ℓ} (before after tasks : List A) (a : A)
    → tasks ≡ before ++ a ∷ after
    → length tasks ≡ suc (length (before ++ after))
one_less before after tasks a e =
    omega (arith, ap length e, length-append before (a ∷ after), length-append before after)

as_many {ℓ} :
    {A : Type ℓ} (before after tasks : List A) (a a' : A)
    → tasks ≡ before ++ a ∷ after
    → length tasks ≡ length (before ++ a' ∷ after)
as_many before after tasks a a' e =
    omega (arith, ap length e, length-append before (a ∷ after), length-append before (a' ∷ after))

Runs-keeps :
    {T R : Type 0} {x : Env} {b : Broadcast T R} {sh sh' : Shared T}
    → Runs x b sh sh'
    → IsConsistent sh.state
    → IsConsistent sh'.state
Runs-keeps here h = h
Runs-keeps (next r s) h = Step-IsConsistent s (Runs-keeps r h)

module _ {S T R M : Type 0} (x : Env) (t : Stream S) (p : StreamMap R M) (b : Broadcast T R) where
  Moves-IsBounded : {s s' : Server S M T} → Moves x t p b s s' → IsBounded s → IsBounded s'
  Moves-IsBounded {s} (acquires n l none e) h = record {
    permits = let c = h.permits in omega (arith, ap held none);
    consistent = h.consistent;
  }
  Moves-IsBounded {s} (accepts socket l one) h = record {
    permits = let c = h.permits in omega (arith, ap held one);
    consistent = h.consistent;
  }
  Moves-IsBounded {s} (stops l) h = record {
    permits = let c = h.permits in omega (arith, given_back-held s.holds_permit s.free_permits);
    consistent = h.consistent;
  }
  Moves-IsBounded {s} (turns before after task task' event db e r) h = record {
    permits = let c = h.permits in omega (arith, as_many before after s.tasks task task' e);
    consistent =
        subst (λ (sh : Shared T). IsConsistent sh.state) (ap (λ q. q.1) r)
          (Runs-keeps (turn-Runs x t p b event task s.db) h.consistent);
  }
  Moves-IsBounded {s} (fails before after task event e bad) h = record {
    permits = let c = h.permits in omega (arith, one_less before after s.tasks task e);
    consistent = Runs-keeps (turn-Runs x t p b event task s.db) h.consistent;
  }
  Moves-IsBounded {s} (ends before after task e over) h = record {
    permits = let c = h.permits in omega (arith, one_less before after s.tasks task e);
    consistent = h.consistent;
  }
  Moves-IsBounded {s} (purges now) h = record {
    permits = h.permits;
    consistent = Step-IsConsistent {x = x} {b = b} (Steps.purges now) h.consistent;
  }
  Moves-IsBounded {s} (exits l e) h = record {
    permits = h.permits;
    consistent = Step-IsConsistent {x = x} {b = b} Steps.drops h.consistent;
  }

  -- In every state that the server reaches, whatever connections come, whatever their tasks receive
  -- and in whatever order they turn: the free permits, the one that the listener's loop may hold and
  -- the tasks are 500 together, so there are at most 500 tasks; and the database is consistent.
  pub Reaches-IsBounded :
      (s : Server S M T) → Reaches x t p b started s → IsBounded s × (length s.tasks ≤ 500)
  Reaches-IsBounded s r = let h = go r in (h, let c = h.permits in omega arith)
    where
      go : {s : Server S M T} → Reaches x t p b started s → IsBounded s
      go begin = record { permits = refl; consistent = new-IsConsistent }
      go (step r m) = Moves-IsBounded m (go r)
