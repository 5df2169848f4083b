-- ===== src/Examples/Demo.antt =====
-- redis-bin/src/main.rs at the replies of a server.
use redis_demo.Base.{Bytes, codes, [], some, refl, sym, append-nil, arith}
use redis_demo.Frame.{integer}
use redis_demo.Frame.Wire.{encode}
use redis_demo.Client.{Network}
use redis_demo.Demo.{main}
use redis_demo.Demo.Prints.{replies, IsDemonstrated, main-IsDemonstrated}
use redis_demo.Examples.World.{Socket, env, socket}

-- A peer that sends `b`, at every address.
abbrev sends : Bytes → Socket
sends b = record { coming = b; buffered = []; sent = [] }

abbrev dials : Bytes → Network Socket
dials b = record { connect = λ addr. some (sends b) }

main-IsDemonstrated_example : IsDemonstrated env socket (some (codes "world")) (codes "bar") (
    main env socket
      (dials (replies (some (codes "world")) 1 (codes "bar") []))
      (dials (encode (integer 1))))
main-IsDemonstrated_example =
    main-IsDemonstrated env socket (omega arith)
      (dials (replies (some (codes "world")) 1 (codes "bar") [])) (dials (encode (integer 1)))
      (sends (replies (some (codes "world")) 1 (codes "bar") [])) (sends (encode (integer 1)))
      (some (codes "world")) 1 1 (codes "bar") [] [] refl refl (omega arith) (omega arith)
      (omega arith) (omega arith) refl (sym (append-nil (encode (integer 1))))
