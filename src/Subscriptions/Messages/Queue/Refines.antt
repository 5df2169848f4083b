-- ===== src/Subscriptions/Messages/Queue/Refines.antt =====
-- The stream of a subscription (redis-lib/src/cmd/subscribe.rs) does what the queue does.
use redis_demo.Base.{
  ℕ, suc, ◌≤◌, ◌≡◌, refl, sym, ◌∙◌, ap, subst, true, Bytes, List, [], ◌∷◌, length, drop,
  drop-append_self, append-nil, Option, none, some, All, is_refl, Outcome, ok, ◌>>=◌, arith,
}
use redis_demo.Std.HashMap
use redis_demo.Env.{Env}
use redis_demo.Failure.{Failure}
use redis_demo.Db
use redis_demo.Db.{Shared, Broadcast}
use redis_demo.Db.Steps.{locked_sound}
use redis_demo.Db.PubSub.{listeners, heard as heard_by}
use redis_demo.Db.Channels.{sender, joined, joined-sender, execute-sender}
use redis_demo.Db.Spec.{Call, Reply, execute, fits}
use redis_demo.Db.Spec.Kept.{IsOpen, IsKept, panicked, answered, subscribe-IsOpen, execute-IsKept}
use redis_demo.Db.Spec.Refines.{new-IsOpen}
use redis_demo.Subscriptions.Messages.{
  Backlog, Poll, poll_next, kept, front, behind, IsPolled, polled, poll_next-IsPolled,
}
use redis_demo.Subscriptions.Messages.Queue.{
  Move, calls, polls, queued, delivered, Fits, others_after, IsOthers, AreOthers, poll_at, listened,
  executed, subscribed, listen, IsQueue,
}
use redis_demo.Subscriptions.Messages.Queue.Heard.{
  IsHeard, heard, call-IsHeard, IsRoomy, call-IsRoomy,
}

module _ {T R : Type 0} (x : Env) {b : Broadcast T R} (k : Backlog b) (key : Bytes) where
  -- The channel is there, the database is open and its receiver has not seen `q`.
  record IsListening (n capacity : ℕ) (q : List Bytes) (sh : Shared T) (rx : R) : Type 0 where
    opened : IsOpen sh
    hears : IsHeard k n capacity q rx (sender key sh)

  kept-IsOpen :
      (call : Call) (sh : Shared T) (r : Option Reply × Shared T)
      → fits x call ≡ true
      → IsKept x b call sh r
      → IsOpen r.1
  kept-IsOpen call sh _ fit (panicked sh' off) = cc
  kept-IsOpen call sh _ fit (answered sh' on same h) = h

  call-IsListening :
      (n capacity : ℕ) (q : List Bytes) (sh : Shared T) (rx : R) (call : Call)
      → fits x call ≡ true
      → IsOthers call key n
      → IsListening n capacity q sh rx
      → IsListening
          (others_after call key n)
          capacity
          (queued call key q)
          (execute x b call sh).1
          rx
  call-IsListening n capacity q sh rx call fit spared h = record {
    opened = kept-IsOpen call sh _ fit (execute-IsKept x b sh h.opened call);
    hears =
        subst (IsHeard k (others_after call key n) capacity (queued call key q) rx)
          (sym (execute-sender x b sh h.opened key call))
          (call-IsHeard k key n capacity q rx call (sender key sh) spared h.hears);
  }

  -- What a poll leaves.
  data IsYielded (n capacity : ℕ) (q : List Bytes) (o : Option T)
      : Outcome Failure (Poll × R) → Type 0 where
    yields :
        (rx : R)
        → IsHeard k n capacity (behind q) rx o
        → IsYielded n capacity q o (ok (front q, rx))

  polled-IsYielded :
      (n capacity : ℕ) (q : List Bytes) (t : T) (r : Outcome Failure (Poll × R))
      → b.receivers t ≡ suc n
      → k.capacity t ≡ capacity
      → IsPolled k t q r
      → IsYielded n capacity q (some t) r
  polled-IsYielded n capacity q t _ some_one room (polled rx same within) =
      yields rx (heard t some_one room same within)

  poll-IsYielded :
      (n capacity : ℕ) (q : List Bytes) (rx : R) (o : Option T)
      → IsHeard k n capacity q rx o
      → IsYielded n capacity (kept capacity q) o (poll_at k o rx)
  poll-IsYielded n capacity q rx _ (heard t some_one room same within) =
      polled-IsYielded n capacity (kept capacity q) t _ some_one room (
        subst (λ c. IsPolled k t (kept c q) (poll_next k t rx)) room
          (poll_next-IsPolled k t rx q same within))

  yields_next :
      (rest : R → Outcome Failure (List Poll)) (ps : List Poll) (o : Option T) (n capacity : ℕ)
      (q : List Bytes) (r : Outcome Failure (Poll × R))
      → IsYielded n capacity q o r
      → ((rx : R) → IsHeard k n capacity (behind q) rx o → rest rx ≡ ok ps)
      → (do (p, rx) ← r; ps' ← rest rx; ok (p ∷ ps')) ≡ ok (front q ∷ ps)
  yields_next rest ps o n capacity q _ (yields rx hears) go_on = rw (go_on rx hears) refl

  listened-delivered :
      (n capacity : ℕ) (q : List Bytes) (moves : List Move) (sh : Shared T) (rx : R)
      → All (Fits x) moves
      → AreOthers key n moves
      → IsListening n capacity q sh rx
      → listened x k key moves sh rx ≡ ok (delivered capacity key moves q)
  listened-delivered n capacity q [] sh rx fit spared h = refl
  listened-delivered n capacity q (calls call ∷ moves) sh rx (fit, fits_all) (spared, all_spared)
        h =
      listened-delivered (others_after call key n) capacity (queued call key q) moves _ rx fits_all
        all_spared (call-IsListening n capacity q sh rx call fit spared h)
  listened-delivered n capacity q (polls ∷ moves) sh rx (fit, fits_all) spared h =
      yields_next (listened x k key moves sh) _ (sender key sh) n capacity (kept capacity q) _
        (poll-IsYielded n capacity q rx (sender key sh) h.hears)
        λ rx' hears.
          listened-delivered n capacity (behind (kept capacity q)) moves sh rx' fits_all spared
            (record { opened = h.opened; hears = hears })

  executed-IsRoomy :
      (before : List Call) (sh : Shared T)
      → All (λ call. fits x call ≡ true) before
      → IsOpen sh
      → IsRoomy k (sender key sh)
      → IsOpen (executed x b before sh) × IsRoomy k (sender key (executed x b before sh))
  executed-IsRoomy [] sh fit opens roomy = (opens, roomy)
  executed-IsRoomy (call ∷ before) sh (fit, fits_all) opens roomy =
      executed-IsRoomy before _ fits_all
        (kept-IsOpen call sh _ fit (execute-IsKept x b sh opens call))
        (subst (IsRoomy k) (sym (execute-sender x b sh opens key call))
          (call-IsRoomy k key call (sender key sh) roomy))

  subscribed-IsHeard :
      (o : Option T) (st : Db.State T)
      → IsRoomy k o
      → (capacity : ℕ) × (1024 ≤ capacity)
        × IsHeard k (heard_by b o) capacity [] (Db.subscribe_channel b key st o).0 (joined b o)
  subscribed-IsHeard none st h = (
    k.capacity (b.channel 1024).0,
    k.channel_capacity 1024,
    heard _ (omega (arith, b.channel_lem 1024)) refl
        (ap (drop (k.position (b.channel 1024).1)) (k.channel_log 1024)
          ∙ ap (λ n. drop n []) (k.channel_position 1024))
        (omega (arith, k.channel_position 1024)),
  )
  subscribed-IsHeard (some t) st h = (
    k.capacity t,
    h,
    heard _ (omega (arith, b.subscribe_lem t)) (k.subscribe_capacity t)
        (ap (λ n. drop n (k.log (b.subscribe t).0)) (k.subscribe_position t)
          ∙ ap (λ l. drop (length (k.log t)) l) (k.subscribe_log t ∙ sym (append-nil (k.log t)))
          ∙ drop-append_self (k.log t) [])
        (omega (arith, k.subscribe_position t, ap length (k.subscribe_log t))),
  )

  subscribed-IsQueue :
      (moves : List Move) (sh : Shared T)
      → All (Fits x) moves
      → AreOthers key (listeners b key sh) moves
      → IsOpen sh
      → IsRoomy k (sender key sh)
      → IsQueue x k key moves (subscribed x k key moves (Db.subscribe b key sh))
  unfolding Db.subscribe
  subscribed-IsQueue moves sh fits_all spared opens roomy =
      let (capacity, large, hears) = subscribed-IsHeard (sender key sh) sh.state roomy in
      let returns =
        locked_sound (λ st. some (Db.subscribe_channel b key st (HashMap.lookup key st.pub_sub))) sh
          opens.sound in
      (
        capacity,
        large,
        ap (subscribed x k key moves) returns
            ∙ listened-delivered (listeners b key sh) capacity [] moves _ _ fits_all spared
                (record {
                  opened = subscribe-IsOpen x b sh opens key (sender key sh);
                  hears =
                      subst (IsHeard k (listeners b key sh) capacity [] _)
                        (sym (
                          joined-sender x b sh opens key key (sender key sh) refl
                          ∙ rw (is_refl key) refl))
                        hears;
                }),
      )

  -- Some calls are made on a new database, then the channel `key` is subscribed to, and then there are
  -- calls of any tasks and polls of the stream of that subscription, in any order; the platform holds
  -- the instant of every `set`, and a drop of a receiver of the channel is of another one. The polls return, and there is a number of at least 1024 such that they
  -- give what a queue of the messages gives, which begins empty, gets each message that is published on
  -- that channel and on no other, and keeps the last ones, up to that number: each poll takes the first
  -- message in the queue, or waits if it is empty.
  pub listen-IsQueue :
      (before : List Call) (moves : List Move)
      → All (λ call. fits x call ≡ true) before
      → All (Fits x) moves
      → AreOthers key (listeners b key (executed x b before Db.new)) moves
      → IsQueue x k key moves (listen x k key before moves)
  unfolding Db.new HashMap.lookup
  listen-IsQueue before moves fit fits_all spared =
      let (opens, roomy) = executed-IsRoomy before Db.new fit (new-IsOpen x b) tt in
      subscribed-IsQueue moves (executed x b before Db.new) fits_all spared opens roomy
