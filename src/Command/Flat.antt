-- ===== src/Command/Flat.antt =====
-- The frames of the commands (redis-lib/src/cmd) are arrays without arrays in them, which
-- `write_frame` can write.
use redis_demo.Base.{Bytes, codes, List, [], ◌∷◌, Option, none, some}
use redis_demo.Frame.{Frame, Frames, bulk, array, nil, cons, push, push_bulk}
use redis_demo.Command.{Set, Duration}
use redis_demo.Command.IntoFrame.{
  set_frame, push_expire, push_channels, subscribe_frame, unsubscribe_frame,
}
use redis_demo.Connection.Write.Sends.{IsFlat, IsValue, AreValues}

push-AreValues : (fs : Frames) (f : Frame) → AreValues fs → IsValue f → AreValues (push fs f)
push-AreValues nil f h k = (k, tt)
push-AreValues (cons g gs) f (h, hs) k = (h, push-AreValues gs f hs k)

push_channels-AreValues :
    (fs : Frames) (ss : List Bytes) → AreValues fs → AreValues (push_channels fs ss)
unfolding push_channels
push_channels-AreValues fs [] h = h
push_channels-AreValues fs (s ∷ ss) h =
    push_channels-AreValues (push_bulk fs s) ss (push-AreValues fs (bulk s) h tt)

module _ (ks : List Bytes) where
  pub subscribe_frame-IsFlat : IsFlat (subscribe_frame (record { channels = ks }))
  unfolding subscribe_frame
  subscribe_frame-IsFlat = push_channels-AreValues (push_bulk nil (codes "subscribe")) ks (tt, tt)

  pub unsubscribe_frame-IsFlat : IsFlat (unsubscribe_frame (record { channels = ks }))
  unfolding unsubscribe_frame
  unsubscribe_frame-IsFlat =
      push_channels-AreValues (push_bulk nil (codes "unsubscribe")) ks (tt, tt)

pub set_frame-IsFlat : (cmd : Set) → IsFlat (set_frame cmd)
unfolding set_frame
set_frame-IsFlat cmd = go cmd.expire
  where
    fields : Frames
    fields = push_bulk (push_bulk (push_bulk nil (codes "set")) cmd.key) cmd.value

    go : (expire : Option Duration) → IsFlat (array (push_expire fields expire))
    go none = (tt, (tt, (tt, tt)))
    go (some d) = (tt, (tt, (tt, (tt, (tt, tt)))))
