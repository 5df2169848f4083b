-- ===== src/Db/Spec/Refines.antt =====
-- The database (redis-lib/src/db.rs) keeps its promise.
use redis_demo.Base.{◌≡◌, refl, sym, ◌∙◌, ap, true, false, List, [], ◌∷◌, Option}
use redis_demo.Std.HashMap
use redis_demo.Env.{Env}
use redis_demo.Db
use redis_demo.Db.{State, Shared, Broadcast, deadline, locked, unlock}
use redis_demo.Db.Steps.{new-IsConsistent}
use redis_demo.Db.Spec.{
  Call, Reply, nothing, answer, answers, execute, fits, fitting, up_to_panic, replies, view,
}
use redis_demo.Db.Spec.Kept.{IsOpen, IsKept, execute-IsKept, panicked, answered}

module _ {T R : Type 0} (x : Env) (b : Broadcast T R) where
  fitting_on :
      (call : Call) (calls : List Call)
      → fits x call ≡ true
      → fitting x (call ∷ calls) ≡ call ∷ fitting x calls
  fitting_on call calls e = rw e refl

  fitting_off :
      (call : Call) (calls : List Call) → fits x call ≡ false → fitting x (call ∷ calls) ≡ []
  fitting_off call calls e = rw e refl

  next_reply :
      (call : Call) (calls : List Call) (sh : Shared T) (r : Option Reply × Shared T)
      → IsKept x b call sh r
      → ((s : Shared T) → IsOpen s → replies x b calls s ≡ answers (fitting x calls) (view x b s))
      → up_to_panic x b r.0 (replies x b calls r.1)
        ≡ answers (fitting x (call ∷ calls)) (view x b sh)
  next_reply call calls sh _ (panicked sh' off) rest =
      ap (λ l. answers l (view x b sh)) (sym (fitting_off call calls off))
  next_reply call calls sh _ (answered sh' on same h') rest =
      ap (λ l. (answer call (view x b sh)).0 ∷ l)
        (rest sh' h' ∙ ap (answers (fitting x calls)) same)
      ∙ ap (λ l. answers l (view x b sh)) (sym (fitting_on call calls on))

  replies_follow :
      (calls : List Call) (sh : Shared T)
      → IsOpen sh
      → replies x b calls sh ≡ answers (fitting x calls) (view x b sh)
  replies_follow [] sh h = refl
  replies_follow (call ∷ calls) sh h =
      next_reply call calls sh (execute x b call sh) (execute-IsKept x b sh h call)
        (replies_follow calls)

  view-new : view x b Db.new ≡ nothing
  unfolding Db.new HashMap.lookup
  view-new = refl

  pub new-IsOpen : IsOpen (Db.new {T = T})
  unfolding Db.new
  new-IsOpen = record { consistent = new-IsConsistent; sound = refl; running = refl }

  -- The calls made on a new database and the drops of receivers, in any order and number, are answered
  -- as the plain map with its counts of receivers answers them, up to the first `set` with an instant that the platform
  -- cannot hold: that call panics, and no call after it is answered.
  pub replies-answers :
      (calls : List Call) → replies x b calls Db.new ≡ answers (fitting x calls) nothing
  replies-answers calls =
      replies_follow calls Db.new new-IsOpen ∙ ap (answers (fitting x calls)) view-new
