-- ===== src/Server.antt =====
-- `Listener::accept` (redis-lib/src/server.rs): it waits longer and longer after each failure.
pub mod Process
pub mod Session
pub mod Run
pub mod Program
use native.Mathlib.Nat.{pow-suc, pow-le-pow_right}
use redis_demo.Base.{
  ℕ, zero, suc, ◌+◌, ◌*◌, ◌^◌, ◌<◌, ◌≤◌, ◌≡◌, refl, sym, ◌∙◌, ap, Option, none, some, ltb,
  if◌then◌else◌, Outcome, ok, err, out_of_fuel, arith, lt→ltb, le→ltb, ◌-◌,
}
use redis_demo.Failure.{Failure, io}

-- `TcpListener::accept` and `time::sleep` of tokio, for listeners `L` and sockets `S`. `none` is an
-- `io::Error`; a sleep is given in seconds.
pub record Tokio (L S : Type 0) : Type 0 where
  pub accept : L → Option S × L
  pub sleep : L → ℕ → L

module _ {L S : Type 0} (k : Tokio L S) where
  -- The loop, with fuel for its rounds.
  unfoldable pub accept_loop : ℕ → ℕ → L → Outcome Failure S × L
  accept_loop zero backoff l = (out_of_fuel, l)
  accept_loop (suc n) backoff l =
      let (tried, l') = k.accept l in
      let again = accept_loop n (backoff * 2) (k.sleep l' backoff) in
      elim tried [ some s ↦ (ok s, l') | none ↦ if ltb 64 backoff then (err io, l') else again ]

  -- `backoff` doubles in each round, so eight rounds are enough.
  unfoldable pub accept : L → Outcome Failure S × L
  accept l = accept_loop 8 1 l

  -- The listener after `n` failures, each followed by a sleep, of 1, 2, 4, … seconds.
  abbrev pub waited : ℕ → L → L
  waited zero l = l
  waited (suc n) l = k.sleep (k.accept (waited n l)).1 (2 ^ n)

  -- Each of the first `n` tries fails.
  abbrev pub Fails : ℕ → L → Type 0
  Fails zero l = Unit {0}
  Fails (suc n) l = ((k.accept (waited n l)).0 ≡ none) × Fails n l

  round_fails :
      (n backoff : ℕ) (l : L)
      → (k.accept l).0 ≡ none
      → backoff ≤ 64
      → accept_loop (suc n) backoff l ≡ accept_loop n (backoff * 2) (k.sleep (k.accept l).1 backoff)
  unfolding accept_loop
  round_fails n backoff l h small = rw (accept_loop, h, le→ltb 64 backoff small) refl

  round_returns :
      (n backoff : ℕ) (l : L) (s : S)
      → (k.accept l).0 ≡ some s
      → accept_loop (suc n) backoff l ≡ (ok s, (k.accept l).1)
  unfolding accept_loop
  round_returns n backoff l s h = rw (accept_loop, h) refl

  round_gives_up :
      (n backoff : ℕ) (l : L)
      → (k.accept l).0 ≡ none
      → 64 < backoff
      → accept_loop (suc n) backoff l ≡ (err io, (k.accept l).1)
  unfolding accept_loop
  round_gives_up n backoff l h big = rw (accept_loop, h, lt→ltb 64 backoff big) refl

  -- After `n` failures, `n` rounds are spent.
  rounds_fail :
      (n m : ℕ) (l : L)
      → n ≤ 7
      → Fails n l
      → accept_loop (n + m) 1 l ≡ accept_loop m (2 ^ n) (waited n l)
  rounds_fail zero m l h f = ap (λ r. accept_loop r 1 l) {x = 0 + m} {y = m} (omega arith)
  rounds_fail (suc n) m l h (f, fs) =
      ap (λ r. accept_loop r 1 l) {x = suc n + m} {y = n + suc m} (omega arith)
      ∙ rounds_fail n (suc m) l (omega arith) fs
      ∙ round_fails m (2 ^ n) (waited n l) f
          (pow-le-pow_right {n = 2} (omega arith) {i = n} {j = 6} (omega arith))
      ∙ ap (λ b. accept_loop m b (waited (suc n) l)) (sym (pow-suc 2 n))

  -- Where the first `n` tries fail, `n` at most 7, and the next one brings a socket, `accept` returns
  -- that socket, after sleeps of 1, 2, 4, … seconds between the tries.
  pub accept-some :
      (n : ℕ) (l : L) (s : S)
      → n ≤ 7
      → Fails n l
      → (k.accept (waited n l)).0 ≡ some s
      → accept l ≡ (ok s, (k.accept (waited n l)).1)
  unfolding accept
  accept-some n l s h f found =
      ap (λ r. accept_loop r 1 l) {x = 8} {y = n + suc (7 - n)} (omega arith)
      ∙ rounds_fail n (suc (7 - n)) l h f
      ∙ round_returns (7 - n) (2 ^ n) (waited n l) s found

  -- Where eight tries fail, `accept` returns the error of the eighth, after the sleeps of 1, 2, 4, …,
  -- 64 seconds between the tries and no sleep behind the last.
  pub accept-none : (l : L) → Fails 8 l → accept l ≡ (err io, (k.accept (waited 7 l)).1)
  unfolding accept
  accept-none l (f, fs) =
      rounds_fail 7 1 l (omega arith) fs ∙ round_gives_up 0 (2 ^ 7) (waited 7 l) f (omega arith)
