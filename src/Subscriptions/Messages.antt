-- ===== src/Subscriptions/Messages.antt =====
-- The stream of the messages of one subscription (redis-lib/src/cmd/subscribe.rs), over the receivers
-- of tokio's broadcast channels.
pub mod Queue
use redis_demo.Base.{
  ℕ, zero, suc, ◌+◌, ◌-◌, ◌<◌, ◌≤◌, ◌≡◌, refl, sym, ◌∙◌, ap, subst, Bytes, List, [], ◌∷◌, ◌++◌,
  length, drop, length-drop, Option, none, some, ltb, if◌then◌else◌, Outcome, ok, out_of_fuel,
  Bool-cases, inl, inr, ltb→lt, ltb→le, arith,
}
use redis_demo.Failure.{Failure}
use redis_demo.Db.{Broadcast}

-- `Receiver::recv`: a message, `RecvError::Lagged`, `RecvError::Closed`, or a wait for more.
pub data Recv : Type 0 where
  received : Bytes → Recv
  lagged closed waits : Recv

-- What the program relies on of the receivers: a channel remembers its last messages, as many as its
-- capacity, which is at least the number that was asked for. A receiver stands at a message of `log`,
-- all that were sent; if that one is forgotten, `recv` says so and moves to the oldest that is not.
pub record Backlog {T R : Type 0} (b : Broadcast T R) : Type 0 where
  pub log : T → List Bytes
  pub capacity : T → ℕ
  pub position : R → ℕ
  pub channel_log : (n : ℕ) → log (b.channel n).0 ≡ []
  pub channel_capacity : (n : ℕ) → n ≤ capacity (b.channel n).0
  pub channel_position : (n : ℕ) → position (b.channel n).1 ≡ 0
  pub subscribe_log : (t : T) → log (b.subscribe t).0 ≡ log t
  pub subscribe_capacity : (t : T) → capacity (b.subscribe t).0 ≡ capacity t
  pub subscribe_position : (t : T) → position (b.subscribe t).1 ≡ length (log t)
  pub send_log :
      (t : T) (m : Bytes)
      → log (b.send t m).0 ≡ (if ltb 0 (b.receivers t) then log t ++ m ∷ [] else log t)
  pub send_capacity : (t : T) (m : Bytes) → capacity (b.send t m).0 ≡ capacity t
  pub leave_log : (t : T) → log (b.leave t) ≡ log t
  pub leave_capacity : (t : T) → capacity (b.leave t) ≡ capacity t
  pub recv : T → R → Recv × R
  pub recv_waits : (t : T) (r : R) → drop (position r) (log t) ≡ [] → recv t r ≡ (waits, r)
  pub recv_received :
      (t : T) (r : R) (m : Bytes) (ms : List Bytes)
      → drop (position r) (log t) ≡ m ∷ ms
      → suc (length ms) ≤ capacity t
      → ((recv t r).0 ≡ received m) × (position (recv t r).1 ≡ suc (position r))
  pub recv_lagged :
      (t : T) (r : R)
      → capacity t < length (drop (position r) (log t))
      → ((recv t r).0 ≡ lagged) × (position (recv t r).1 ≡ length (log t) - capacity t)

-- `Poll<Option<Bytes>>`
pub data Poll : Type 0 where
  ready : Option Bytes → Poll
  pending : Poll

module _ {T R : Type 0} {b : Broadcast T R} (k : Backlog b) where
  -- `match rx.recv().await { … }`, where `again` is the next round
  abbrev pub yielded : Recv × R → Outcome Failure (Poll × R) → Outcome Failure (Poll × R)
  yielded (received msg, rx) again = ok (ready (some msg), rx)
  yielded (lagged, rx) again = again
  yielded (closed, rx) again = ok (ready none, rx)
  yielded (waits, rx) again = ok (pending, rx)

  -- The loop as far as the next `yield`, its end or a wait, with fuel for its rounds.
  unfoldable pub poll_loop : ℕ → T → R → Outcome Failure (Poll × R)
  poll_loop zero t rx = out_of_fuel
  poll_loop (suc n) t rx = let again = poll_loop n t (k.recv t rx).1 in yielded (k.recv t rx) again

  -- Behind a lag there is a message, so two rounds are enough.
  unfoldable pub poll_next : T → R → Outcome Failure (Poll × R)
  poll_next t rx = poll_loop 2 t rx

  -- The messages that a receiver has not seen.
  abbrev pub unseen : T → R → List Bytes
  unseen t rx = drop (k.position rx) (k.log t)

-- The messages of `q` that are remembered, the last `capacity`.
abbrev pub kept : ℕ → List Bytes → List Bytes
kept capacity q = drop (length q - capacity) q

abbrev pub front : List Bytes → Poll
front [] = pending
front (m ∷ ms) = ready (some m)

abbrev pub behind : List Bytes → List Bytes
behind [] = []
behind (m ∷ ms) = ms

kept_all : (capacity : ℕ) (q : List Bytes) → length q ≤ capacity → kept capacity q ≡ q
kept_all capacity q h = ap (λ n. drop n q) {x = length q - capacity} {y = 0} (omega arith)

drop-suc :
    (n : ℕ) (q : List Bytes) (m : Bytes) (ms : List Bytes) → drop n q ≡ m ∷ ms → drop (suc n) q ≡ ms
drop-suc zero [] m ms h = cc
drop-suc zero (a ∷ q) m ms h = ap behind h
drop-suc (suc n) [] m ms h = cc
drop-suc (suc n) (a ∷ q) m ms h = drop-suc n q m ms h

drop_nil : (n : ℕ) → drop {A = Bytes} n [] ≡ []
drop_nil zero = refl
drop_nil (suc n) = refl

drop-drop : (n m : ℕ) (q : List Bytes) → drop n (drop m q) ≡ drop (m + n) q
drop-drop n zero q = ap (λ i. drop i q) {x = n} {y = 0 + n} (omega arith)
drop-drop n (suc m) [] = drop_nil n ∙ sym (drop_nil (suc m + n))
drop-drop n (suc m) (a ∷ q) =
    drop-drop n m q ∙ ap (λ i. drop i (a ∷ q)) {x = suc (m + n)} {y = suc m + n} (omega arith)

module _ {T R : Type 0} {b : Broadcast T R} (k : Backlog b) (t : T) where
  -- The loop has yielded the front of `q`, and the rest is left to see.
  pub data IsPolled (q : List Bytes) : Outcome Failure (Poll × R) → Type 0 where
    polled :
        (rx : R)
        → unseen k t rx ≡ behind q
        → k.position rx ≤ length (k.log t)
        → IsPolled q (ok (front q, rx))

  received-IsPolled :
      (m : Bytes) (ms : List Bytes) (again : Outcome Failure (Poll × R)) (p : Recv × R)
      → p.0 ≡ received m
      → unseen k t p.1 ≡ ms
      → k.position p.1 ≤ length (k.log t)
      → IsPolled (m ∷ ms) (yielded k p again)
  received-IsPolled m ms again (_, rx) e same within =
      subst (λ g. IsPolled (m ∷ ms) (yielded k (g, rx) again)) (sym e) (polled rx same within)

  lagged-IsPolled :
      (q : List Bytes) (again : Outcome Failure (Poll × R)) (p : Recv × R)
      → p.0 ≡ lagged
      → IsPolled q again
      → IsPolled q (yielded k p again)
  lagged-IsPolled q again (_, rx) e h = subst (λ g. IsPolled q (yielded k (g, rx) again)) (sym e) h

  unseen_within :
      (rx : R) (m : Bytes) (ms : List Bytes)
      → unseen k t rx ≡ m ∷ ms
      → suc (k.position rx) ≤ length (k.log t)
  unseen_within rx m ms same = omega (arith, ap length same, length-drop (k.position rx) (k.log t))

  round-IsPolled :
      (n : ℕ) (rx : R) (q : List Bytes)
      → unseen k t rx ≡ q
      → length q ≤ k.capacity t
      → k.position rx ≤ length (k.log t)
      → IsPolled q (poll_loop k (suc n) t rx)
  unfolding poll_loop
  round-IsPolled n rx [] same small within = rw (k.recv_waits t rx same) (polled rx same within)
  round-IsPolled n rx (m ∷ ms) same small within =
      let (got, moved) = k.recv_received t rx m ms same small in
      received-IsPolled m ms _ (k.recv t rx) got
        (ap (λ i. drop i (k.log t)) moved ∙ drop-suc (k.position rx) (k.log t) m ms same)
        (omega (arith, moved, unseen_within rx m ms same))

  lagged_unseen :
      (rx rx' : R) (q : List Bytes)
      → unseen k t rx ≡ q
      → k.position rx ≤ length (k.log t)
      → k.capacity t < length q
      → k.position rx' ≡ length (k.log t) - k.capacity t
      → unseen k t rx' ≡ kept (k.capacity t) q
  lagged_unseen rx rx' q same within late moved =
      ap (λ i. drop i (k.log t)) {x = k.position rx'}
        {y = k.position rx + (length q - k.capacity t)}
        (omega (arith, ap length same, length-drop (k.position rx) (k.log t)))
      ∙ sym (drop-drop (length q - k.capacity t) (k.position rx) (k.log t))
      ∙ ap (drop (length q - k.capacity t)) same

  -- Where a receiver has not seen `q`, a poll of its stream yields the first of the last messages of
  -- `q` that are remembered, or waits if there is none.
  pub poll_next-IsPolled :
      (rx : R) (q : List Bytes)
      → unseen k t rx ≡ q
      → k.position rx ≤ length (k.log t)
      → IsPolled (kept (k.capacity t) q) (poll_next k t rx)
  unfolding poll_next poll_loop
  poll_next-IsPolled rx q same within = elim (Bool-cases (ltb (k.capacity t) (length q))) [
    | inl late ↦
        let less : k.capacity t < length q = ltb→lt _ _ late in
        let (slow, moved) =
          k.recv_lagged t rx (subst (λ l. k.capacity t < length l) (sym same) less) in
        lagged-IsPolled _ _ (k.recv t rx) slow (
          round-IsPolled 0 (k.recv t rx).1 (kept (k.capacity t) q)
            (lagged_unseen rx (k.recv t rx).1 q same within less moved)
            (omega (arith, length-drop (length q - k.capacity t) q)) (omega (arith, moved)))
    | inr early ↦
        subst (λ l. IsPolled l (poll_loop k 2 t rx))
          (sym (kept_all (k.capacity t) q (ltb→le _ _ early)))
          (round-IsPolled 1 rx q same (ltb→le _ _ early) within)
  ]
