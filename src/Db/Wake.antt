-- ===== src/Db/Wake.antt =====
-- When `Db::set` (redis-lib/src/db.rs) does not notify the background task, the task sleeps no
-- longer than it may.
use native.Mathlib.Nat.{le_refl}
use redis_demo.Base.{
  ltb→le, ◌≤◌, ◌≡◌, refl, sym, ap, ◌∙◌, false, Bytes, List, [], ◌∷◌, Option, none, some, All, arith,
}
use redis_demo.Std.HashMap
use redis_demo.Std.BTreeSet
use redis_demo.Std.BTreeSet.{Instant, IsSorted}
use redis_demo.Env.{Env}
use redis_demo.Command.{Duration}
use redis_demo.Db.{
  Entry, State, Shared, head_instant, precedes, forget, forget_entry, schedule, next_expiration,
  deadline, store, set,
}
use redis_demo.Db.Consistent.{IsConsistent}
use redis_demo.Db.Answers.{set_returned}

-- Every instant is `w` or later.
abbrev From : Instant → List (Instant × Bytes) → Type 0
From w = All (λ q. w ≤ q.0)

From-head :
    (w u : Instant) (s : List (Instant × Bytes)) → From w s → head_instant s ≡ some u → w ≤ u
From-head w u [] h e = cc
From-head w u ((t, k) ∷ s) h e = ground (arith, h.0)

From-forget :
    (w : Instant) (prev : Option Entry) (key : Bytes) (s : List (Instant × Bytes))
    → From w s
    → From w (forget_entry prev key s)
From-forget w none key s h = h
From-forget w (some e) key s h = go e.expires_at
  where
    go : (when : Option Instant) → From w (forget when key s)
    go none = h
    go (some u) = BTreeSet.All-remove (λ q. w ≤ q.0) (u, key) s h

forget_nothing : (prev : Option Entry) (key : Bytes) → forget_entry prev key [] ≡ []
unfolding BTreeSet.remove
forget_nothing none key = refl
forget_nothing (some e) key = go e.expires_at
  where
    go : (when : Option Instant) → forget when key [] ≡ []
    go none = refl
    go (some u) = refl

-- The new instant, if there is one, does not come before the first of the old ones.
abbrev NotFirst : Option Instant → Option Instant → Type 0
NotFirst none first = Unit
NotFirst (some u) first = precedes u first ≡ false

deadline-NotFirst :
    {T : Type 0} (x : Env) (now : Instant) (expire : Option Duration) (st : State T)
    (when : Option Instant)
    → deadline x now expire st ≡ some (when, false)
    → NotFirst when (next_expiration st)
unfolding deadline
deadline-NotFirst x now expire st none h = tt
deadline-NotFirst x now none st (some u) h = cc
deadline-NotFirst x now (some d) st (some u) h = ground arith

module _ (key : Bytes) (prev : Option Entry) (w : Instant) where
  wakes_in_time :
      (when : Option Instant) (s : List (Instant × Bytes))
      → IsSorted s
      → NotFirst when (head_instant s)
      → head_instant (schedule when key (forget_entry prev key s)) ≡ some w
      → (v : Instant) × (head_instant s ≡ some v) × (v ≤ w)
  wakes_in_time none [] sorted late h = cc (ap head_instant (forget_nothing prev key))
  wakes_in_time (some u) [] sorted late h = cc
  wakes_in_time none ((v, k) ∷ s) sorted late h =
      (v, refl, From-head v w _ (From-forget v prev key ((v, k) ∷ s) (le_refl v, sorted.0)) h)
  wakes_in_time (some u) ((v, k) ∷ s) sorted late h = (
    v,
    refl,
    From-head v w _
        (BTreeSet.All-insert (λ q. v ≤ q.0) (u, key) _ (ltb→le u v late)
          (From-forget v prev key ((v, k) ∷ s) (le_refl v, sorted.0)))
        h,
  )

-- Where `set` returns without a notification, an instant was due before, and the first one due now
-- is not earlier: the background task, asleep until the old one, wakes in time.
pub set-wakes_in_time :
    {T : Type 0} (x : Env) (now : Instant) (key value : Bytes) (expire : Option Duration)
    (sh sh' : Shared T) (w : Instant)
    → IsConsistent sh.state
    → set x now key value expire sh ≡ (some false, sh')
    → next_expiration sh'.state ≡ some w
    → (v : Instant) × (next_expiration sh.state ≡ some v) × (v ≤ w)
unfolding next_expiration store
set-wakes_in_time x now key value expire sh sh' w h done first =
    let (when, d) = set_returned x now key value expire sh sh' false done in
    wakes_in_time key (HashMap.lookup key sh.state.entries) w when sh.state.expirations h.sorted
      (deadline-NotFirst x now expire sh.state when d.instant)
      (ap (λ (s : Shared _). head_instant s.state.expirations) (sym d.after) ∙ first)
