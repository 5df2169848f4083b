-- ===== src/Subscriptions.antt =====
-- What the server does for a client that has subscribed (redis-lib/src/cmd/subscribe.rs).
pub mod Messages
pub mod Unsubscribes
pub mod Subscribes
use redis_demo.Base.{
  ℕ, ◌-◌, ◌≡◌, Bool, true, false, ◌||◌, ◌&&◌, not, Bytes, codes, List, [], ◌∷◌, ◌++◌, Option, none,
  some, ◌is◌, if◌then◌else◌, length, Outcome, ok, err, panic, out_of_fuel, ◌>>=◌,
}
use redis_demo.Env.{Env}
use redis_demo.Frame.{Frame, array, nil, push_bulk, push_int}
use redis_demo.Failure.{Failure}
use redis_demo.Command.{Command, subscribe, unsubscribe, get_name, new_unknown}
use redis_demo.Command.Decode.{from_frame}
use redis_demo.Db
use redis_demo.Db.{Shared, Broadcast}
use redis_demo.Connection.{Stream, Connection}
use redis_demo.Connection.Write.{write_frame}
use redis_demo.Apply.{unknown_apply}

-- The text is one of the list.
abbrev pub holds : Bytes → List Bytes → Bool
holds j [] = false
holds j (k ∷ ks) = k is j || holds j ks

-- `tokio_stream::StreamMap<String, Messages>`, as values `M` that hold the messages of receivers
-- `R`: what the program relies on of it. Its keys are in no particular order, each
-- once.
pub record StreamMap (R M : Type 0) : Type 0 where
  pub keys : M → List Bytes
  pub empty : M
  pub empty_lem : keys empty ≡ []
  pub len : M → ℕ
  pub len_lem : (m : M) → len m ≡ length (keys m)
  pub insert : M → Bytes → R → M
  pub insert_lem :
      (m : M) (k : Bytes) (r : R) (j : Bytes)
      → holds j (keys (insert m k r)) ≡ (k is j || holds j (keys m))
  pub remove : M → Bytes → M
  pub remove_lem :
      (m : M) (k j : Bytes) → holds j (keys (remove m k)) ≡ (not (k is j) && holds j (keys m))

unfoldable pub make_subscribe_frame : Bytes → ℕ → Frame
make_subscribe_frame channel n_subs =
    array (push_int (push_bulk (push_bulk nil (codes "subscribe")) channel) n_subs)

unfoldable pub make_unsubscribe_frame : Bytes → ℕ → Frame
make_unsubscribe_frame channel n_subs =
    array (push_int (push_bulk (push_bulk nil (codes "unsubscribe")) channel) n_subs)

unfoldable pub make_message_frame : Bytes → Bytes → Frame
make_message_frame channel msg =
    array (push_bulk (push_bulk (push_bulk nil (codes "message")) channel) msg)

-- `?` on a run that leaves a database behind.
abbrev pub and_then {ℓ κ} :
    {T : Type 0} {A : Type ℓ} {B : Type κ}
    → Outcome Failure A × Shared T
    → (A → Shared T → Outcome Failure B × Shared T)
    → Outcome Failure B × Shared T
and_then (ok a, db) f = f a db
and_then (err e, db) f = (err e, db)
and_then (panic, db) f = (panic, db)
and_then (out_of_fuel, db) f = (out_of_fuel, db)

-- The drops of receivers of the channels, one each.
abbrev pub release_all : {T R : Type 0} → Broadcast T R → List Bytes → Shared T → Shared T
release_all b [] db = db
release_all b (k ∷ ks) db = release_all b ks (Db.release b k db)

module _ {T R M : Type 0} (p : StreamMap R M) (b : Broadcast T R) where
  -- The stream of the channel, if there is one, leaves the map, and its receiver is dropped.
  abbrev pub drop_stream : Bytes → M → Shared T → Shared T
  drop_stream channel m db = if holds channel (p.keys m) then Db.release b channel db else db

  -- `Subscribe::apply` is over: the map is dropped, with all its streams and their receivers.
  abbrev pub drop_all : M → Shared T → Shared T
  drop_all m db = release_all b (p.keys m) db

  -- That is so where a step of it fails or panics.
  abbrev pub after {ℓ} : {A : Type ℓ} → Outcome Failure A → M → Shared T → Shared T
  after (ok a) m db = db
  after _ m db = drop_all m db

  abbrev pub guarded {ℓ} :
      {A : Type ℓ} → M → Outcome Failure A → Shared T → Outcome Failure A × Shared T
  guarded m o db = (o, after o m db)

module _ {S R M : Type 0} (t : Stream S) (p : StreamMap R M) where
  abbrev pub track : Bytes → M → Connection S → Option R → Outcome Failure (M × Connection S)
  track channel subscriptions dst none = panic
  track channel subscriptions dst (some rx) = do
    let subscriptions' = p.insert subscriptions channel rx
    dst' ← write_frame t dst (make_subscribe_frame channel (p.len subscriptions'))
    ok (subscriptions', dst')

  -- `insert` returns the old stream of the channel, which is dropped at once.
  abbrev pub tracked :
      {T : Type 0} → Broadcast T R → Bytes → M → Connection S → Option R → Shared T → Shared T
  tracked b channel subscriptions dst none db = drop_all p b subscriptions db
  tracked b channel subscriptions dst (some rx) db =
      after p b (track channel subscriptions dst (some rx)) (p.insert subscriptions channel rx)
        (drop_stream p b channel subscriptions db)

  unfoldable pub subscribe_to_channel :
      {T : Type 0}
      → Broadcast T R
      → Bytes
      → M
      → Shared T
      → Connection S
      → Outcome Failure (M × Connection S) × Shared T
  subscribe_to_channel b channel subscriptions db dst =
      let (rx, db') = Db.subscribe b channel db in
      (track channel subscriptions dst rx, tracked b channel subscriptions dst rx db')

  -- No channels stand for all channels.
  abbrev pub chosen : List Bytes → M → List Bytes
  chosen [] subscriptions = p.keys subscriptions
  chosen (k ∷ ks) subscriptions = k ∷ ks

  module _ {T : Type 0} (b : Broadcast T R) where
    -- `for channel in unsubscribe.channels { … }`
    unfoldable pub unsubscribe_each :
        List Bytes → M → Connection S → Shared T → Outcome Failure (M × Connection S) × Shared T
    unsubscribe_each [] subscriptions dst db = (ok (subscriptions, dst), db)
    unsubscribe_each (channel ∷ channels) subscriptions dst db =
        let subscriptions' = p.remove subscriptions channel in
        let frame = make_unsubscribe_frame channel (p.len subscriptions') in
        and_then
          (guarded p b subscriptions' (write_frame t dst frame)
            (drop_stream p b channel subscriptions db))
          λ dst' db'. unsubscribe_each channels subscriptions' dst' db'

    -- The match on the command; the new value of `subscribe_to` is returned with the others.
    unfoldable pub handle :
        List Bytes
        → M
        → Connection S
        → Command
        → Shared T
        → Outcome Failure (List Bytes × M × Connection S) × Shared T
    handle subscribe_to subscriptions dst (subscribe c) db =
        (ok (subscribe_to ++ c.channels, subscriptions, dst), db)
    handle subscribe_to subscriptions dst (unsubscribe c) db =
        and_then (unsubscribe_each (chosen c.channels subscriptions) subscriptions dst db)
          λ (subscriptions', dst') db'. (ok (subscribe_to, subscriptions', dst'), db')
    handle subscribe_to subscriptions dst command db =
        guarded p b subscriptions
          (do
            dst' ← unknown_apply t (new_unknown (get_name command)) dst
            ok (subscribe_to, subscriptions, dst'))
          db

    unfoldable pub handle_command :
        Env
        → Frame
        → List Bytes
        → M
        → Connection S
        → Shared T
        → Outcome Failure (List Bytes × M × Connection S) × Shared T
    handle_command x frame subscribe_to subscriptions dst db =
        and_then (guarded p b subscriptions (from_frame x frame) db)
          λ command db'. handle subscribe_to subscriptions dst command db'
