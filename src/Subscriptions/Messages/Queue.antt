-- ===== src/Subscriptions/Messages/Queue.antt =====
-- The stream of a subscription (redis-lib/src/cmd/subscribe.rs) is a queue of the messages that are
-- published on its channel (redis-lib/src/db.rs), of bounded length.
pub mod Heard
pub mod Refines
use redis_demo.Base.{
  ℕ, zero, suc, ◌+◌, ◌-◌, ◌<◌, ◌≤◌, ◌≡◌, refl, sym, ◌∙◌, ap, subst, Bool, true, false, Bool-cases,
  inl, inr, Bytes, List, [], ◌∷◌, ◌++◌, length, drop, drop-append, drop-append_self, append-nil,
  Option, none, some, ◌is◌, ltb, if◌then◌else◌, All, is_refl, Outcome, ok, panic, length-append,
  ◌>>=◌, lt→ltb, arith,
}
use redis_demo.Std.HashMap
use redis_demo.Env.{Env}
use redis_demo.Failure.{Failure}
use redis_demo.Db
use redis_demo.Db.{Shared, Broadcast}
use redis_demo.Db.Steps.{locked_sound}
use redis_demo.Db.Channels.{sender, sender_after, joined, sent, joined-sender, execute-sender}
use redis_demo.Db.Spec.{
  Call, sets, gets, subscribes, publishes, purges, leaves, Reply, execute, fits,
}
use redis_demo.Db.Spec.Kept.{IsOpen, IsKept, panicked, answered, subscribe-IsOpen, execute-IsKept}
use redis_demo.Db.Spec.Refines.{new-IsOpen}
use redis_demo.Subscriptions.Messages.{
  Backlog, Poll, ready, poll_next, unseen, kept, front, behind, IsPolled, polled,
  poll_next-IsPolled,
}

-- Any task calls the database, or the task of the subscription polls its stream.
pub data Move : Type 0 where
  calls : Call → Move
  polls : Move

-- The messages that were published and not yielded, after a call.
abbrev pub queued : Call → Bytes → List Bytes → List Bytes
queued (publishes key m) j q = if key is j then q ++ m ∷ [] else q
queued _ j q = q

-- What the polls are to give, for a queue that keeps its last `capacity` messages.
abbrev pub delivered : ℕ → Bytes → List Move → List Bytes → List Poll
delivered capacity key [] q = []
delivered capacity key (calls call ∷ moves) q = delivered capacity key moves (queued call key q)
delivered capacity key (polls ∷ moves) q =
    front (kept capacity q) ∷ delivered capacity key moves (behind (kept capacity q))

-- Each call fits on the platform.
abbrev pub Fits : Env → Move → Type 0
Fits x (calls call) = fits x call ≡ true
Fits x polls = Unit

-- The receivers of the channel beside the one of the subscription, after a call.
abbrev pub others_after : Call → Bytes → ℕ → ℕ
others_after (subscribes key) j n = n + (if key is j then 1 else 0)
others_after (leaves key) j n = n - (if key is j then 1 else 0)
others_after _ j n = n

-- Where the call drops a receiver of the channel, there is another one.
abbrev pub IsOthers : Call → Bytes → ℕ → Type 0
IsOthers (leaves key) j n = key is j ≡ true → 0 < n
IsOthers _ j n = Unit

-- No call drops the receiver of the subscription: there are `n` others at first.
abbrev pub AreOthers : Bytes → ℕ → List Move → Type 0
AreOthers key n [] = Unit
AreOthers key n (calls call ∷ moves) =
    IsOthers call key n × AreOthers key (others_after call key n) moves
AreOthers key n (polls ∷ moves) = AreOthers key n moves

module _ {T R : Type 0} (x : Env) (b : Broadcast T R) where
  abbrev pub executed : List Call → Shared T → Shared T
  executed [] sh = sh
  executed (call ∷ before) sh = executed before (execute x b call sh).1

module _ {T R : Type 0} {b : Broadcast T R} (k : Backlog b) where
  -- A channel that is not in the database has no sender and is closed.
  abbrev pub poll_at : Option T → R → Outcome Failure (Poll × R)
  poll_at none rx = ok (ready none, rx)
  poll_at (some t) rx = poll_next k t rx

module _ {T R : Type 0} (x : Env) {b : Broadcast T R} (k : Backlog b) (key : Bytes) where
  -- What the polls give.
  abbrev pub listened : List Move → Shared T → R → Outcome Failure (List Poll)
  listened [] sh rx = ok []
  listened (calls call ∷ moves) sh rx = listened moves (execute x b call sh).1 rx
  listened (polls ∷ moves) sh rx = do
    (p, rx') ← poll_at k (sender key sh) rx
    ps ← listened moves sh rx'
    ok (p ∷ ps)

  abbrev pub subscribed : List Move → Option R × Shared T → Outcome Failure (List Poll)
  subscribed moves (none, sh) = panic
  subscribed moves (some rx, sh) = listened moves sh rx

  -- A subscription to the channel `key` after some calls on a new database.
  abbrev pub listen : List Call → List Move → Outcome Failure (List Poll)
  listen before moves = subscribed moves (Db.subscribe b key (executed x b before Db.new))

  -- The stream of a subscription gives its polls what a queue of the messages on the channel gives,
  -- which keeps its last `capacity` messages.
  abbrev pub IsQueue : List Move → Outcome Failure (List Poll) → Type 0
  IsQueue moves r = (capacity : ℕ) × (1024 ≤ capacity) × (r ≡ ok (delivered capacity key moves []))
