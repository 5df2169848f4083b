-- ===== src/Db/Task/Expires.antt =====
-- What the background task of redis-lib/src/db.rs brings about by its own steps.
use redis_demo.Base.{
  some_eq, ℕ, ◌≤◌, ◌<◌, ◌≡◌, refl, ap, sym, ◌∙◌, subst, inl, inr, true, false, Bool-cases, Bytes,
  List, [], ◌∷◌, Option, none, some, leb, arith, suc, ◌⊎◌, All, leb→le,
}
use redis_demo.Std.HashMap
use redis_demo.Std.BTreeSet.{Instant, IsSorted}
use redis_demo.Env.{Env}
use redis_demo.Db
use redis_demo.Db.{State, Shared, Broadcast, head_instant, next_expiration}
use redis_demo.Db.Consistent.{IsConsistent}
use redis_demo.Db.Purge.{keep_live, purge_state-IsPurged, done_purging, later_of_sorted}
use redis_demo.Db.Task.Watch.{Covers}
use redis_demo.Db.Task.Alive.{IsRunning, look_goes_on, purge_goes_on, Reaches-IsAlive}
use redis_demo.Db.Task.Wakes.{Reaches-IsWatched}
use redis_demo.Db.Task.{
  Task, after_look, looking, purging, finished, waiting, World, Reaches, Works, rests, works, looks,
  purges, wakes, hears,
}

leb-false : (v now u : Instant) → leb v now ≡ false → some v ≡ some u → now < u
leb-false v now u later e = subst (λ t. now < t) (some_eq e) (ground arith)

-- Where so many steps of the task lead: the entries that have expired at `now` are gone, the others
-- are as they were.
pub record IsSwept {T R : Type 0} (x : Env) (b : Broadcast T R) (now : Instant) (s : World T)
    (n : ℕ) (s' : World T) : Type 0 where
  pub by_steps : Works x b now s n s'
  pub live :
      (j : Bytes)
      → HashMap.lookup j s'.db.state.entries ≡ keep_live now (HashMap.lookup j s.db.state.entries)

module _ {T R : Type 0} (x : Env) (b : Broadcast T R) (now : Instant) (s : World T)
    (cons : IsConsistent s.db.state) (running : IsRunning s.db) where
  module _ (n : ℕ) (s₁ : World T) (w : Works x b now s n s₁) (same : s₁.db ≡ s.db) where
    from_purging : s₁.task ≡ purging → (s' : World T) × IsSwept x b now s (suc n) s'
    from_purging e =
        let still = subst IsRunning (sym same) running in
        (
          _,
          record {
            by_steps = works w (purges now e) refl;
            live = λ j.
                ap (λ r. HashMap.lookup j r.1.state.entries) (purge_goes_on s₁.db now still)
                ∙ ap (λ (q : Shared T). HashMap.lookup j (Db.purge_state now q.state).1.entries)
                    same
                ∙ (purge_state-IsPurged now s.db.state cons running.1).live j;
          },
        )

  from_looking :
      (n : ℕ) (s₁ : World T)
      → Works x b now s n s₁
      → s₁.db ≡ s.db
      → s₁.task ≡ looking
      → (s' : World T) × IsSwept x b now s (suc (suc n)) s'
  from_looking n s₁ w same e =
      let goes = look_goes_on s₁.db (subst IsRunning (sym same) running) in
      from_purging (suc n) _ (works w (looks e) tt) (ap (λ r. r.1) goes ∙ same)
        (ap (λ r. after_look r.0) goes)

  later_than :
      (o : Option Instant) (l : List (Instant × Bytes))
      → IsSorted l
      → Covers o (head_instant l)
      → ((v : Instant) → o ≡ some v → now < v)
      → All (λ q. now < q.0) l
  later_than o [] sorted covers early = tt
  later_than o ((t, key) ∷ l) sorted covers early =
      let (v, e, le) = covers t refl in
      let lt = early v e in (omega arith, later_of_sorted now t l (omega arith) sorted.0)

  -- Nothing is due before the instant that the task waits for.
  from_sleep :
      (o : Option Instant)
      → Covers o (head_instant s.db.state.expirations)
      → ((v : Instant) → o ≡ some v → now < v)
      → IsSwept x b now s 0 s
  from_sleep o covers early = record {
    by_steps = rests;
    live =
        (done_purging now s.db.state cons
          (later_than o s.db.state.expirations cons.sorted covers early)).live;
  }

  abbrev Sweeps : Type 0
  Sweeps = (n : ℕ) × ((n ≤ 3) × ((s' : World T) × IsSwept x b now s n s'))

  from_waiting :
      (o : Option Instant)
      → s.task ≡ waiting o
      → Covers o (head_instant s.db.state.expirations)
      → Sweeps
  from_waiting none e covers = (0, (omega arith, (s, from_sleep none covers λ v q. cc)))
  from_waiting (some v) e covers = elim (Bool-cases (leb v now)) [
    | inl due ↦ (
      3,
      (
        omega arith,
        from_looking 1 _ (works rests (wakes now v e (leb→le v now due)) refl) refl refl,
      ),
    )
    | inr later ↦
        (0, (omega arith, (s, from_sleep (some v) covers λ u q. leb-false v now u later q)))
  ]

  from_task :
      (k : Task)
      → s.task ≡ k
      → ¬ (k ≡ finished)
      → ((o : Option Instant)
          → k ≡ waiting o
          → (s.permit ≡ true) ⊎ Covers o (head_instant s.db.state.expirations))
      → Sweeps
  from_task looking e alive watched = (2, (omega arith, from_looking 0 s rests refl e))
  from_task purging e alive watched = (1, (omega arith, from_purging 0 s rests refl e))
  from_task finished e alive watched = absurd (alive refl)
  from_task (waiting o) e alive watched = elim (watched o refl) [
    | inl heard ↦ (3, (omega arith, from_looking 1 _ (works rests (hears o e heard) tt) refl refl))
    | inr covers ↦ from_waiting o e covers
  ]

-- However the operations of the connections and the steps of the background task have followed each
-- other, and whatever the task does or waits for: at any instant `now`, if nothing has panicked under
-- the lock and the database is not shut down, at most three further steps of the task, all at that
-- instant, remove every entry that has expired by then, and they change no other entry.
pub task-sweeps :
    {T R : Type 0} (x : Env) (b : Broadcast T R) (now : Instant) (s : World T)
    → Reaches x b s
    → s.db.poisoned ≡ false
    → s.db.state.shutdown ≡ false
    → (n : ℕ) × ((n ≤ 3) × ((s' : World T) × IsSwept x b now s n s'))
unfolding next_expiration
task-sweeps x b now s r sound running =
    let (cons, watched) = Reaches-IsWatched r in
    from_task x b now s cons (sound, running) s.task refl (Reaches-IsAlive r (sound, running))
      watched.watched
