-- ===== src/Examples/Server.antt =====
-- A server (redis-lib/src/server.rs) with a connection on which a `SET` and a `SUBSCRIBE` arrive.
use redis_demo.Base.{
  false, ◌≡◌, refl, ◌≤◌, true, ℕ, Bytes, codes, List, [], ◌∷◌, ◌++◌, none, some, ok, Ensures,
  length, map, arith,
}
use redis_demo.Std.Utf8.{is_utf8}
use redis_demo.Frame.{Frame, bulk, array, nil, cons}
use redis_demo.Frame.Wire.{encode, IsWire}
use redis_demo.Command.{Command, Ping, get, set}
use redis_demo.Command.IntoFrame.{get_frame, set_frame, ping_frame, subscribe_frame}
use redis_demo.Db
use redis_demo.Db.Spec.{Call, sets, gets, view}
use redis_demo.Db.Spec.Refines.{new-IsOpen}
use redis_demo.Connection.Speaks.{Speaks}
use redis_demo.Server.Session.{
  Session, Event, returned as over, arrives, delivers, signals, turn, run,
}
use redis_demo.Server.Session.Answers.{OrIoWith}
use redis_demo.Server.Session.Pipelines.Serves.{turns-AreServed}
use redis_demo.Server.Session.Pipelines.{
  Request, calling, pinging, unnamed, instant_of, frames_of, all_promised, turns, AreServed,
}
use redis_demo.Server.Session.Speaks.{run-Speaks}
use redis_demo.Server.Run.{
  Server, listening, started, spawned, Reaches, begin, step, acquires, accepts, turns as one_turns,
}
use redis_demo.Server.Run.Legal.{IsLegal, Reaches-IsLegal}
use redis_demo.Server.Run.Bounded.{IsBounded, Reaches-IsBounded}
use redis_demo.Examples.World.{env, socket, Socket, counter}
use redis_demo.Examples.Channels.{channels}

-- `SET k v PX 1500`
abbrev a_set : Command
a_set = set (record { key = codes "k"; value = codes "v"; expire = some 1_500_000_000 })

abbrev request : Frame
request = set_frame (record { key = codes "k"; value = codes "v"; expire = some 1_500_000_000 })

request-IsWire : IsWire env.max_capacity request
unfolding set_frame
request-IsWire = omega arith

abbrev a_get : Frame
a_get = get_frame (record { key = codes "k" })

abbrev a_ping : Ping
a_ping = record { echo = none }

ping-IsWire : IsWire env.max_capacity (ping_frame a_ping)
unfolding ping_frame
ping-IsWire = omega arith

get-IsWire : IsWire env.max_capacity a_get
unfolding get_frame
get-IsWire = omega arith

text : is_utf8 (codes "k") ≡ true
unfolding is_utf8
text = refl

abbrev peer : Bytes → Socket
peer b = record { coming = b; buffered = []; sent = [] }

abbrev task : Session Socket (List Bytes)
task =
    spawned
      (peer (encode request ++ encode (subscribe_frame (record { channels = codes "c" ∷ [] }))))

abbrev a_call : Call
a_call = sets 7 (codes "k") (codes "v") (some 1_500_000_000)

flush-IsWire : IsWire env.max_capacity (array (cons (bulk (codes "FLUSH")) nil))
flush-IsWire = omega arith

flush_text : is_utf8 (codes "FLUSH") ≡ true
unfolding is_utf8
flush_text = refl

abbrev requests : List (Request env)
requests =
    calling 7 a_set request a_call request-IsWire refl text refl refl
    ∷ pinging 8 a_ping ping-IsWire
    ∷ unnamed 8 (codes "FLUSH") nil flush-IsWire flush_text refl
    ∷ calling 9 (get (record { key = codes "k" })) a_get (gets (codes "k")) get-IsWire refl text
        refl refl
    ∷ []

abbrev busy : Session Socket (List Bytes)
busy = spawned (peer (frames_of requests ++ codes "*"))

turns-AreServed_example :
    OrIoWith env socket counter
      (AreServed env socket channels counter
        (all_promised requests (view env counter Db.new)).0
        (codes "*")
        (all_promised requests (view env counter Db.new)).1
        busy)
      (turns env socket channels counter (map (λ r. arrives (instant_of r)) requests) busy Db.new)
turns-AreServed_example =
    turns-AreServed env socket channels counter requests busy Db.new (codes "*")
      (new-IsOpen env counter) refl refl refl

-- The second database has a receiver on "c" of another task.
abbrev events : List (Event × Db.Shared ℕ)
events =
    (arrives 7, Db.new)
    ∷ (arrives 8, (Db.subscribe counter (codes "c") Db.new).1)
    ∷ (delivers (codes "c") (codes "hi"), Db.new)
    ∷ (signals, Db.new)
    ∷ []

run-Speaks_example :
    Ensures (λ s'. Speaks socket task.dst s'.dst) (run env socket channels counter events task)
run-Speaks_example = run-Speaks env socket channels counter events task

abbrev one_task : Server Socket (List Bytes) ℕ
one_task = record {
  phase = listening;
  db = Db.new;
  free_permits = 499;
  holds_permit = false;
  tasks = task ∷ [];
  complete_senders = 1;
}

one_reached : Reaches env socket channels counter started one_task
one_reached = step (step begin (acquires 499 refl refl refl)) (
    accepts
      (peer (encode request ++ encode (subscribe_frame (record { channels = codes "c" ∷ [] }))))
      refl refl)

Reaches-IsBounded_example : IsBounded one_task × (length one_task.tasks ≤ 500)
Reaches-IsBounded_example = Reaches-IsBounded env socket channels counter one_task one_reached

-- The shutdown signal comes, and the task turns on it.
abbrev signalled : Session Socket (List Bytes)
signalled = record { mode = over; dst = task.dst; shutdown = record { is_shutdown = true } }

on_signal : turn env socket channels counter signals task Db.new ≡ (ok signalled, Db.new)
unfolding turn
on_signal = refl

abbrev ending : Server Socket (List Bytes) ℕ
ending = record {
  phase = listening;
  db = Db.new;
  free_permits = 499;
  holds_permit = false;
  tasks = signalled ∷ [];
  complete_senders = 1;
}

ending_reached : Reaches env socket channels counter started ending
ending_reached = step one_reached (one_turns [] [] task signalled signals Db.new refl on_signal)

Reaches-IsLegal_example : IsLegal env socket channels counter ending
Reaches-IsLegal_example = Reaches-IsLegal env socket channels counter ending ending_reached
