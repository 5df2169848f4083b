-- ===== src/Examples/Subscriber.antt =====
-- `Subscriber` (redis-lib/src/clients/client.rs) at two channels.
use redis_demo.Base.{ℕ, ◌≡◌, refl, Bytes, codes, List, [], ◌∷◌, ◌++◌, arith}
use redis_demo.Failure.{OrIo}
use redis_demo.Command.IntoFrame.{subscribe_frame, unsubscribe_frame}
use redis_demo.Connection.{Breaks}
use redis_demo.Subscriptions.{make_subscribe_frame, make_unsubscribe_frame}
use redis_demo.Client.Subscriber.{Subscriber, into_subscriber, unsubscribe}
use redis_demo.Client.Subscriber.Confirms.{replies_of, named, IsAsked, into_subscriber-OrIo}
use redis_demo.Client.Subscriber.Leaves.{IsLeft, unsubscribe-OrIo}
use redis_demo.Examples.World.{coming, env, socket, Socket}

abbrev joins : List (Bytes × ℕ)
joins = (codes "a", 1) ∷ (codes "b", 2) ∷ []

into_subscriber-OrIo_example :
    OrIo
      (Breaks socket)
      (λ s.
        (s.subscribed_channels ≡ named joins)
        × IsAsked socket
            (subscribe_frame (record { channels = named joins }))
            (codes "*")
            (coming (replies_of make_subscribe_frame joins ++ codes "*"))
            s.client)
      (into_subscriber env socket
        (named joins)
        (coming (replies_of make_subscribe_frame joins ++ codes "*")))
into_subscriber-OrIo_example =
    into_subscriber-OrIo env socket (omega arith) joins (codes "*")
      (coming (replies_of make_subscribe_frame joins ++ codes "*")) (omega arith) refl

abbrev leaves : List (Bytes × ℕ)
leaves = (codes "b", 1) ∷ (codes "a", 0) ∷ []

abbrev subscriber : Subscriber Socket
subscriber = record {
  client = coming (replies_of make_unsubscribe_frame leaves ++ codes "*");
  subscribed_channels = codes "a" ∷ codes "b" ∷ [];
}

unsubscribe-OrIo_example :
    OrIo
      (Breaks socket)
      (λ s'.
        IsLeft leaves (codes "a" ∷ codes "b" ∷ []) s'.subscribed_channels
        × IsAsked socket
            (unsubscribe_frame (record { channels = [] }))
            (codes "*")
            (coming (replies_of make_unsubscribe_frame leaves ++ codes "*"))
            s'.client)
      (unsubscribe env socket [] subscriber)
unsubscribe-OrIo_example =
    unsubscribe-OrIo env socket (omega arith) [] leaves (codes "*") subscriber (omega arith)
      (refl, (refl, tt)) refl refl
