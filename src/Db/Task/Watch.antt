-- ===== src/Db/Task/Watch.antt =====
-- When the background task of redis-lib/src/db.rs is sure to wake up in time.
use redis_demo.Base.{
  ◌≤◌, ◌≡◌, refl, ap, sym, ◌∙◌, subst, ◌⊎◌, inl, inr, Bool, true, Bool-cases, Option, none, some,
}
use redis_demo.Std.BTreeSet.{Instant}
use redis_demo.Db.{State, Shared, locked, unlock, next_expiration}
use redis_demo.Db.Steps.{locked_poisoned, locked_sound}
use redis_demo.Db.Task.{Task, looking, purging, finished, waiting}

-- The first instant due is not before the one the task waits for.
abbrev pub Covers : Option Instant → Option Instant → Type 0
Covers o first = (w : Instant) → first ≡ some w → (v : Instant) × (o ≡ some v) × (v ≤ w)

module _ {T : Type 0} where
  pub record IsWatched (k : Task) (permit : Bool) (st : State T) : Type 0 where
    pub watched :
        (o : Option Instant) → k ≡ waiting o → (permit ≡ true) ⊎ Covers o (next_expiration st)
    pub checked : k ≡ purging → st.shutdown ≡ true → permit ≡ true

  pub notified : (k : Task) (permit : Bool) (st : State T) → permit ≡ true → IsWatched k permit st
  notified k permit st p = record { watched = λ o e. inl p; checked = λ e d. p }

  pub awake : (permit : Bool) (st : State T) → IsWatched looking permit st
  awake permit st = record { watched = λ o e. cc; checked = λ e d. cc }

  pub over : (permit : Bool) (st : State T) → IsWatched finished permit st
  over permit st = record { watched = λ o e. cc; checked = λ e d. cc }

  pub quiet :
      (k : Task) (permit : Bool) (st st' : State T)
      → next_expiration st' ≡ next_expiration st
      → st'.shutdown ≡ st.shutdown
      → IsWatched k permit st
      → IsWatched k permit st'
  quiet k permit st st' e d h = record {
    watched = λ o w. subst (λ n. (permit ≡ true) ⊎ Covers o n) (sym e) (h.watched o w);
    checked = λ p s. h.checked p (sym d ∙ s);
  }

  -- What code under the lock keeps if it returns, it keeps.
  pub locked_keeps {ℓ} :
      {X : Type ℓ} {A : Type 0} (g : State T → X) (f : State T → Option (A × State T))
      (sh : Shared T)
      → ((a : A) (st : State T) → f sh.state ≡ some (a, st) → g st ≡ g sh.state)
      → g (locked f sh).1.state ≡ g sh.state
  locked_keeps g f sh keep = elim (Bool-cases sh.poisoned) [
    | inl broken ↦ ap (λ r. g r.1.state) (locked_poisoned f sh broken)
    | inr sound ↦ ap (λ r. g r.1.state) (locked_sound f sh sound) ∙ go (f sh.state) refl
  ]
    where
      go : (o : Option (_ × State T)) → f sh.state ≡ o → g (unlock sh.state o).1.state ≡ g sh.state
      go none e = refl
      go (some (a, st)) e = keep a st e

  pub total_keeps {ℓ} :
      {X : Type ℓ} {A : Type 0} (g : State T → X) (f : State T → A × State T) (sh : Shared T)
      → g (f sh.state).1 ≡ g sh.state
      → g (locked (λ st. some (f st)) sh).1.state ≡ g sh.state
  total_keeps g f sh keep =
      locked_keeps g (λ st. some (f st)) sh λ a st e. subst (λ s. g s ≡ g sh.state) (cc) keep

  -- A panic changes nothing but the flag of the lock.
  pub locked-none :
      {A : Type 0} (f : State T → Option (A × State T)) (sh sh' : Shared T)
      → locked f sh ≡ (none, sh')
      → sh'.state ≡ sh.state
  locked-none {A} f sh sh' e = elim (Bool-cases sh.poisoned) [
    | inl broken ↦ ap (λ r. r.1.state) (sym e ∙ locked_poisoned f sh broken)
    | inr sound ↦ go (f sh.state) (sym e ∙ locked_sound f sh sound)
  ]
    where
      go : (o : Option (A × State T)) → (none, sh') ≡ unlock sh.state o → sh'.state ≡ sh.state
      go none q = ap (λ r. r.1.state) q
      go (some (a, st)) q = cc (ap (λ r. r.0) q)
