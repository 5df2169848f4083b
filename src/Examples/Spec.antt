-- ===== src/Examples/Spec.antt =====
-- The database (redis-lib/src/db.rs) at the calls that make two subscriptions and
-- drop one, and at calls of which the last but one panics.
use redis_demo.Base.{◌≡◌, codes, List, [], ◌∷◌, some, ◌^◌}
use redis_demo.Db
use redis_demo.Db.Spec.{
  Call, sets, gets, subscribes, publishes, purges, leaves, nothing, answers, fitting, replies,
}
use redis_demo.Db.Spec.Refines.{replies-answers}
use redis_demo.Examples.World.{env, counter}

abbrev calls : List Call
calls =
    subscribes (codes "hello")
    ∷ subscribes (codes "foo")
    ∷ leaves (codes "hello")
    ∷ publishes (codes "hello") (codes "nobody")
    ∷ sets 1 (codes "k") (codes "v") (some 10)
    ∷ gets (codes "k")
    ∷ subscribes (codes "c")
    ∷ publishes (codes "c") (codes "hi")
    ∷ purges 11
    ∷ gets (codes "k")
    ∷ sets 12 (codes "k") (codes "w") (some (10 ^ 18))
    ∷ gets (codes "k")
    ∷ []

replies-answers_example : replies env counter calls Db.new ≡ answers (fitting env calls) nothing
replies-answers_example = replies-answers env counter calls
