-- ===== src/Examples/Streams.antt =====
-- The stream of a subscription (redis-lib/src/cmd/subscribe.rs) between some calls of the database.
use redis_demo.Base.{
  ℕ, suc, ◌+◌, ◌-◌, ◌<◌, ◌≤◌, ◌≡◌, refl, Bytes, codes, List, [], ◌∷◌, ◌++◌, length, drop, Option,
  none, some, ltb, if◌then◌else◌, lt→ltb, le→ltb, arith,
}
use redis_demo.Std.HashMap
use redis_demo.Db
use redis_demo.Db.{Broadcast}
use redis_demo.Db.Spec.{Call, sets, subscribes, publishes, leaves}
use redis_demo.Subscriptions.Messages.{Backlog, Recv, received, lagged, waits}
use redis_demo.Subscriptions.Messages.Queue.{Move, calls, polls, listen, IsQueue}
use redis_demo.Subscriptions.Messages.Queue.Refines.{listen-IsQueue}
use redis_demo.Examples.World.{env}

-- A channel with the messages that were sent on it, and the number of its receivers.
record Channel : Type 0 where
  sent : List Bytes
  listening : ℕ
  room : ℕ

abbrev send : Channel → Bytes → Channel × Option ℕ
send t m =
    if ltb 0 t.listening
    then (
      record { sent = t.sent ++ m ∷ []; listening = t.listening; room = t.room },
      some t.listening,
    )
    else (t, none)

send_answers :
    (t : Channel) (m : Bytes)
    → (send t m).1 ≡ (if ltb 0 t.listening then some t.listening else none)
send_answers t m = ground arith

send_keeps : (t : Channel) (m : Bytes) → (send t m).0.listening ≡ t.listening
send_keeps t m = ground arith

send_room : (t : Channel) (m : Bytes) → (send t m).0.room ≡ t.room
send_room t m = ground arith

send_log :
    (t : Channel) (m : Bytes)
    → (send t m).0.sent ≡ (if ltb 0 t.listening then t.sent ++ m ∷ [] else t.sent)
send_log t m = ground arith

-- A receiver is the number of messages that it has passed.
abbrev channels : Broadcast Channel ℕ
channels = record {
  receivers = λ t. t.listening;
  channel = λ n. (record { sent = []; listening = 1; room = n }, 0);
  channel_lem = λ n. refl;
  subscribe =
      λ t. (record { sent = t.sent; listening = t.listening + 1; room = t.room }, length t.sent);
  subscribe_lem = λ t. refl;
  send = send;
  send_lem = send_answers;
  send_keeps = send_keeps;
  leave = λ t. record { sent = t.sent; listening = t.listening - 1; room = t.room };
  leave_lem = λ t. refl;
}

abbrev front_of : ℕ → List Bytes → Recv × ℕ
front_of r [] = (waits, r)
front_of r (m ∷ ms) = (received m, suc r)

abbrev recv : Channel → ℕ → Recv × ℕ
recv t r =
    if ltb t.room (length (drop r t.sent))
    then (lagged, length t.sent - t.room)
    else front_of r (drop r t.sent)

recv_waits : (t : Channel) (r : ℕ) → drop r t.sent ≡ [] → recv t r ≡ (waits, r)
recv_waits t r h = rw (h, le→ltb t.room 0 (omega arith)) refl

recv_received :
    (t : Channel) (r : ℕ) (m : Bytes) (ms : List Bytes)
    → drop r t.sent ≡ m ∷ ms
    → suc (length ms) ≤ t.room
    → ((recv t r).0 ≡ received m) × ((recv t r).1 ≡ suc r)
recv_received t r m ms h small = rw (h, le→ltb t.room (suc (length ms)) small) (refl, refl)

recv_lagged :
    (t : Channel) (r : ℕ)
    → t.room < length (drop r t.sent)
    → ((recv t r).0 ≡ lagged) × ((recv t r).1 ≡ length t.sent - t.room)
recv_lagged t r late = rw (lt→ltb t.room (length (drop r t.sent)) late) (refl, refl)

-- A channel remembers as many messages as it was made for.
abbrev backlog : Backlog channels
backlog = record {
  log = λ t. t.sent;
  capacity = λ t. t.room;
  position = λ r. r;
  channel_log = λ n. refl;
  channel_capacity = λ n. omega arith;
  channel_position = λ n. refl;
  subscribe_log = λ t. refl;
  subscribe_capacity = λ t. refl;
  subscribe_position = λ t. refl;
  leave_log = λ t. refl;
  leave_capacity = λ t. refl;
  send_log = send_log;
  send_capacity = send_room;
  recv = recv;
  recv_waits = recv_waits;
  recv_received = recv_received;
  recv_lagged = recv_lagged;
}

-- There is a subscriber already, which leaves between two messages, and a message is on another
-- channel.
abbrev before : List Call
before = subscribes (codes "c") ∷ publishes (codes "c") (codes "early") ∷ []

abbrev moves : List Move
moves =
    polls
    ∷ calls (publishes (codes "c") (codes "one"))
    ∷ calls (publishes (codes "d") (codes "other"))
    ∷ calls (sets 1 (codes "c") (codes "v") (some 10))
    ∷ calls (leaves (codes "c"))
    ∷ calls (publishes (codes "c") (codes "two"))
    ∷ polls
    ∷ polls
    ∷ polls
    ∷ []

-- The polls wait, yield "one", yield "two" and wait.
listen-IsQueue_example :
    IsQueue env backlog (codes "c") moves (listen env backlog (codes "c") before moves)
unfolding HashMap.lookup HashMap.insert Db.publish Db.locked Db.subscribe Db.new
listen-IsQueue_example =
    listen-IsQueue env backlog (codes "c") before moves (refl, (refl, tt))
      (tt, (refl, (refl, (refl, (refl, (refl, (tt, (tt, (tt, tt)))))))))
      (tt, (tt, (tt, ((λ same. omega arith), (tt, tt)))))
