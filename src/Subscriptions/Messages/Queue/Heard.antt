-- ===== src/Subscriptions/Messages/Queue/Heard.antt =====
-- What a call of the database (redis-lib/src/db.rs) does to the receiver of a subscription.
use redis_demo.Base.{
  ℕ, suc, ◌+◌, ◌-◌, ◌<◌, ◌≤◌, ◌≡◌, refl, sym, ◌∙◌, ap, subst, Bool-cases, inl, inr, Bytes, List, [],
  ◌∷◌, ◌++◌, length, drop, drop-append, Option, none, some, ◌is◌, length-append, lt→ltb, arith,
}
use redis_demo.Db.{Broadcast}
use redis_demo.Db.Channels.{sender_after, joined, sent, left}
use redis_demo.Db.Spec.{Call, sets, gets, subscribes, publishes, purges, leaves}
use redis_demo.Subscriptions.Messages.{Backlog, unseen}
use redis_demo.Subscriptions.Messages.Queue.{queued, others_after, IsOthers}

module _ {T R : Type 0} {b : Broadcast T R} (k : Backlog b) where
  -- The receiver has not seen the messages `q`, the channel keeps `capacity` of them, and it has `n`
  -- other receivers.
  pub data IsHeard (n capacity : ℕ) (q : List Bytes) (rx : R) : Option T → Type 0 where
    heard :
        (t : T)
        → b.receivers t ≡ suc n
        → k.capacity t ≡ capacity
        → unseen k t rx ≡ q
        → k.position rx ≤ length (k.log t)
        → IsHeard n capacity q rx (some t)

  module _ (key : Bytes) (n capacity : ℕ) (q : List Bytes) (rx : R) where
    subscribes-IsHeard :
        (o : Option T) → IsHeard n capacity q rx o → IsHeard (n + 1) capacity q rx (joined b o)
    subscribes-IsHeard _ (heard t some_one room same within) =
        heard _ (omega (arith, b.subscribe_lem t)) (k.subscribe_capacity t ∙ room)
          (ap (drop (k.position rx)) (k.subscribe_log t) ∙ same)
          (subst (λ l. k.position rx ≤ length l) (sym (k.subscribe_log t)) within)

    leaves-IsHeard :
        (o : Option T)
        → 0 < n
        → IsHeard n capacity q rx o
        → IsHeard (n - 1) capacity q rx (left b o)
    leaves-IsHeard _ more (heard t some_one room same within) =
        heard _ (omega (arith, b.leave_lem t)) (k.leave_capacity t ∙ room)
          (ap (drop (k.position rx)) (k.leave_log t) ∙ same)
          (subst (λ l. k.position rx ≤ length l) (sym (k.leave_log t)) within)

    sent_log : (t : T) (m : Bytes) → 0 < b.receivers t → k.log (b.send t m).0 ≡ k.log t ++ m ∷ []
    sent_log t m some_one = k.send_log t m ∙ rw (lt→ltb 0 (b.receivers t) some_one) refl

    publishes-IsHeard :
        (m : Bytes) (o : Option T)
        → IsHeard n capacity q rx o
        → IsHeard n capacity (q ++ m ∷ []) rx (sent b m o)
    publishes-IsHeard m _ (heard t some_one room same within) =
        heard _ (omega (arith, b.send_keeps t m)) (k.send_capacity t m ∙ room)
          (ap (drop (k.position rx)) (sent_log t m (omega arith))
            ∙ drop-append (k.position rx) (k.log t) (m ∷ []) within
            ∙ ap (λ l. l ++ m ∷ []) same)
          (omega (arith, ap length (sent_log t m (omega arith)), length-append (k.log t) (m ∷ [])))

    pub call-IsHeard :
        (call : Call) (o : Option T)
        → IsOthers call key n
        → IsHeard n capacity q rx o
        → IsHeard
            (others_after call key n)
            capacity
            (queued call key q)
            rx
            (sender_after b call key o)
    call-IsHeard (sets now j value expire) o spared h = h
    call-IsHeard (gets j) o spared h = h
    call-IsHeard (purges now) o spared h = h
    call-IsHeard (subscribes j) o spared h = elim (Bool-cases (j is key)) [
      | inl same ↦ rw same (subscribes-IsHeard o h)
      | inr different ↦
          rw different (subst (λ i. IsHeard i capacity q rx o) {x = n} {y = n + 0} (omega arith) h)
    ]
    call-IsHeard (leaves j) o spared h = elim (Bool-cases (j is key)) [
      | inl same ↦ rw same (leaves-IsHeard o (spared same) h)
      | inr different ↦
          rw different (subst (λ i. IsHeard i capacity q rx o) {x = n} {y = n - 0} (omega arith) h)
    ]
    call-IsHeard (publishes j m) o spared h = elim (Bool-cases (j is key)) [
      | inl same ↦ rw same (publishes-IsHeard m o h)
      | inr different ↦ rw different h
    ]

  -- The channel, if there is one, keeps at least 1024 messages.
  abbrev pub IsRoomy : Option T → Type 0
  IsRoomy none = Unit
  IsRoomy (some t) = 1024 ≤ k.capacity t

  joined-IsRoomy : (o : Option T) → IsRoomy o → IsRoomy (joined b o)
  joined-IsRoomy none h = k.channel_capacity 1024
  joined-IsRoomy (some t) h = omega (arith, k.subscribe_capacity t)

  left-IsRoomy : (o : Option T) → IsRoomy o → IsRoomy (left b o)
  left-IsRoomy none h = tt
  left-IsRoomy (some t) h = omega (arith, k.leave_capacity t)

  sent-IsRoomy : (m : Bytes) (o : Option T) → IsRoomy o → IsRoomy (sent b m o)
  sent-IsRoomy m none h = tt
  sent-IsRoomy m (some t) h = omega (arith, k.send_capacity t m)

  pub call-IsRoomy :
      (key : Bytes) (call : Call) (o : Option T) → IsRoomy o → IsRoomy (sender_after b call key o)
  call-IsRoomy key (sets now j value expire) o h = h
  call-IsRoomy key (gets j) o h = h
  call-IsRoomy key (purges now) o h = h
  call-IsRoomy key (subscribes j) o h = elim (Bool-cases (j is key)) [
    | inl same ↦ rw same (joined-IsRoomy o h)
    | inr different ↦ rw different h
  ]
  call-IsRoomy key (leaves j) o h = elim (Bool-cases (j is key)) [
    | inl same ↦ rw same (left-IsRoomy o h)
    | inr different ↦ rw different h
  ]
  call-IsRoomy key (publishes j m) o h = elim (Bool-cases (j is key)) [
    | inl same ↦ rw same (sent-IsRoomy m o h)
    | inr different ↦ rw different h
  ]
