-- ===== src/Examples/Channels.antt =====
-- A `StreamMap` of which only the keys are kept, and the subscription commands with it.
use redis_demo.Base.{
  ℕ, ◌≡◌, refl, not, ◌&&◌, ◌||◌, Bytes, codes, List, [], ◌∷◌, ◌is◌, is_iff, if◌then◌else◌, length,
  arith,
}
use redis_demo.Db
use redis_demo.Db.{Shared}
use redis_demo.Failure.{OrIo}
use redis_demo.Command.{Unsubscribe, unsubscribe}
use redis_demo.Command.IntoFrame.{unsubscribe_frame}
use redis_demo.Command.RoundTrip.{from_frame-into_frame}
use redis_demo.Connection.{Connection, Breaks}
use redis_demo.Subscriptions.{StreamMap, holds, handle_command}
use redis_demo.Subscriptions.Unsubscribes.{Unsubscribed, handle_command-unsubscribe}
use redis_demo.Examples.World.{env, socket, Socket, counter}

-- Subscriptions of which only the channels are kept.
unfoldable pub without : Bytes → List Bytes → List Bytes
without k [] = []
without k (j ∷ js) = let rest = without k js in if k is j then rest else j ∷ rest

unfoldable pub remove_channel : List Bytes → Bytes → List Bytes
unfolding without
remove_channel m k = without k m

pub holds-remove_channel :
    (m : List Bytes) (k j : Bytes) → holds j (remove_channel m k) ≡ (not (k is j) && holds j m)
unfolding remove_channel without
holds-remove_channel [] k j = ground arith
holds-remove_channel (i ∷ m) k j =
    ground (arith, is_iff k j, is_iff k i, is_iff i j, holds-remove_channel m k j)

unfoldable pub insert_channel : List Bytes → Bytes → List Bytes
insert_channel m k = k ∷ remove_channel m k

pub holds-insert_channel :
    (m : List Bytes) (k : Bytes) (r : Unit {0}) (j : Bytes)
    → holds j (insert_channel m k) ≡ (k is j || holds j m)
unfolding insert_channel
holds-insert_channel m k r j = rw (holds-remove_channel m k j) (ground arith)

abbrev pub channels : StreamMap (Unit {0}) (List Bytes)
channels = record {
  keys = λ m. m;
  empty = [];
  empty_lem = refl;
  len = λ m. length m;
  len_lem = λ m. refl;
  insert = λ m k r. insert_channel m k;
  insert_lem = holds-insert_channel;
  remove = remove_channel;
  remove_lem = holds-remove_channel;
}

-- Subscribed to "a" and "b", a client unsubscribes from all.
abbrev two : List Bytes
two = codes "a" ∷ codes "b" ∷ []

-- The database counts their receivers.
abbrev counted : Shared ℕ
counted = (Db.subscribe counter (codes "b") (Db.subscribe counter (codes "a") Db.new).1).1

abbrev none_named : Unsubscribe
none_named = record { channels = [] }

abbrev fresh : Connection Socket
fresh = record { stream = record { coming = []; buffered = []; sent = [] }; read_buf = [] }

handle_command-unsubscribe_example :
    OrIo
      (Breaks socket)
      (λ (to', m', dst').
        (to' ≡ [])
        × Unsubscribed socket channels counter two two fresh counted m' dst'
            (handle_command socket channels counter env
              (unsubscribe_frame none_named)
              []
              two
              fresh
              counted).1)
      (handle_command socket channels counter env
        (unsubscribe_frame none_named)
        []
        two
        fresh
        counted).0
handle_command-unsubscribe_example =
    handle_command-unsubscribe socket channels counter env (unsubscribe_frame none_named) [] two
      fresh none_named counted
      (from_frame-into_frame env (unsubscribe none_named) (unsubscribe_frame none_named) refl tt)
