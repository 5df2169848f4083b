-- ===== src/Subscriptions/Subscribes.antt =====
-- `subscribe_to_channel` (redis-lib/src/cmd/subscribe.rs) and the receivers of the channel.
use redis_demo.Base.{
  ℕ, ◌+◌, ◌-◌, ◌≡◌, refl, sym, ◌∙◌, subst, Bool, true, false, Bool-cases, inl, inr, not, ◌&&◌,
  Bytes, Option, some, Outcome, ok, ◌>>=◌, ◌is◌, is→eq, if◌then◌else◌, arith,
}
use redis_demo.Failure.{Failure, OrIo, returned, broken, OrIo-weaken}
use redis_demo.Db
use redis_demo.Db.{Shared, Broadcast}
use redis_demo.Db.Steps.{locked_sound}
use redis_demo.Db.PubSub.{listeners, subscribe-heard, release-listeners}
use redis_demo.Connection.{Stream, Connection, Breaks}
use redis_demo.Connection.Write.Sends.{Sent, IsFlat, write_frame-OrIo}
use redis_demo.Subscriptions.{
  StreamMap, holds, make_subscribe_frame, track, tracked, drop_stream, after, guarded,
}

pub make_subscribe_frame-IsFlat : (k : Bytes) (n : ℕ) → IsFlat (make_subscribe_frame k n)
unfolding make_subscribe_frame
make_subscribe_frame-IsFlat k n = (tt, (tt, (tt, tt)))

-- One or none.
abbrev pub bit : Bool → ℕ
bit q = if q then 1 else 0

module _ {T R M : Type 0} (p : StreamMap R M) (b : Broadcast T R) where
  drop_stream_sound :
      (k : Bytes) (m : M) (db : Shared T)
      → db.poisoned ≡ false
      → (drop_stream p b k m db).poisoned ≡ false
  unfolding Db.release
  drop_stream_sound k m db sound = elim (Bool-cases (holds k (p.keys m))) [
    | inl listens ↦ rw listens sound
    | inr deaf ↦ rw deaf sound
  ]

  -- The receiver of a stream that leaves the map is no longer counted.
  pub drop_stream-listeners :
      (k j : Bytes) (m : M) (db : Shared T)
      → listeners b j (drop_stream p b k m db)
        ≡ listeners b j db - bit (k is j && holds j (p.keys m))
  drop_stream-listeners k j m db = elim (Bool-cases (k is j)) [
    | inl same ↦ elim (Bool-cases (holds k (p.keys m))) [
      | inl listens ↦
          rw (listens, same, subst (λ i. holds i (p.keys m) ≡ true) (is→eq k j same) listens)
            (release-listeners b k j db ∙ rw same refl)
      | inr deaf ↦
          rw (deaf, same, subst (λ i. holds i (p.keys m) ≡ false) (is→eq k j same) deaf)
            (omega arith)
    ]
    | inr different ↦ elim (Bool-cases (holds k (p.keys m))) [
      | inl listens ↦ rw (listens, different) (release-listeners b k j db ∙ rw different refl)
      | inr deaf ↦ rw (deaf, different) (omega arith)
    ]
  ]

  -- What `Db::subscribe` returned, and the database once the old stream of the channel is dropped: the
  -- channel has one receiver more, unless there was a stream.
  pub record IsJoining (k : Bytes) (m : M) (db : Shared T) (r : Option R × Shared T) : Type 0 where
    pub rx : R
    pub joins : r.0 ≡ some rx
    pub sound : (drop_stream p b k m r.1).poisoned ≡ false
    pub counted :
        (j : Bytes)
        → listeners b j (drop_stream p b k m r.1)
          ≡ listeners b j db + bit (k is j && not (holds j (p.keys m)))

  joins_once :
      (a d : Bool) (n l l' : ℕ) → l ≡ n + bit a → l' ≡ l - bit (a && d) → l' ≡ n + bit (a && not d)
  joins_once true true n l l' h h' = omega arith
  joins_once true false n l l' h h' = omega arith
  joins_once false d n l l' h h' = omega arith

  pub subscribe-IsJoining :
      (k : Bytes) (m : M) (db : Shared T)
      → db.poisoned ≡ false
      → IsJoining k m db (Db.subscribe b k db)
  unfolding Db.subscribe
  subscribe-IsJoining k m db sound =
      subst (IsJoining k m db) (sym (locked_sound _ db sound)) (record {
        rx = _;
        joins = refl;
        sound = drop_stream_sound k m _ refl;
        counted = λ j.
            joins_once (k is j) (holds j (p.keys m)) (listeners b j db) _ _
              (subscribe-heard b k j db.state) (drop_stream-listeners k j m _);
      })

module _ {S T R M : Type 0} (t : Stream S) (p : StreamMap R M) (b : Broadcast T R) where
  -- The stream of the channel is in the map and the subscription is acknowledged with the number of
  -- the subscriptions; only the old stream of the channel was dropped.
  pub record IsTracked (k : Bytes) (m : M) (dst : Connection S) (rx : R) (o : Option R)
      (db : Shared T) (m' : M) (dst' : Connection S) : Type 0 where
    pub same : m' ≡ p.insert m k rx
    pub acknowledged : Sent t dst (make_subscribe_frame k (p.len (p.insert m k rx))) dst'
    pub dropped : tracked t p b k m dst o db ≡ drop_stream p b k m db

  abbrev added : M → Outcome Failure (Connection S) → Outcome Failure (M × Connection S)
  added m w = do dst ← w; ok (m, dst)

  -- After a write that does not fail nothing is dropped.
  added-OrIo :
      {P : Connection S → Type 0} (m : M) (db : Shared T) (w : Outcome Failure (Connection S))
      → OrIo (Breaks t) P w
      → OrIo
          (Breaks t)
          (λ (m', dst'). (m' ≡ m) × (P dst' × (after p b (added m w) m db ≡ db)))
          (added m w)
  added-OrIo m db _ (returned dst' sent) = returned _ (refl, (sent, refl))
  added-OrIo m db _ (broken h) = broken h

  pub guarded-OrIo :
      {P : Connection S → Type 0} (m : M) (db : Shared T) (w : Outcome Failure (Connection S))
      → OrIo (Breaks t) P w
      → OrIo (Breaks t) (λ dst'. P dst' × ((guarded p b m w db).1 ≡ db)) (guarded p b m w db).0
  guarded-OrIo m db _ (returned dst' sent) = returned dst' (sent, refl)
  guarded-OrIo m db _ (broken h) = broken h

  pub track-OrIo :
      (k : Bytes) (m : M) (dst : Connection S) (rx : R) (o : Option R) (db : Shared T)
      → o ≡ some rx
      → OrIo (Breaks t) (λ (m', dst'). IsTracked k m dst rx o db m' dst') (track t p k m dst o)
  track-OrIo k m dst rx o db e =
      subst
        (λ q.
          OrIo (Breaks t) (λ (m', dst'). IsTracked k m dst rx q db m' dst') (track t p k m dst q))
        (sym e)
        (OrIo-weaken
          (added-OrIo (p.insert m k rx) (drop_stream p b k m db) _
            (write_frame-OrIo t dst _ (make_subscribe_frame-IsFlat k (p.len (p.insert m k rx)))))
          λ r (same, (sent, dropped)). record {
            same = same;
            acknowledged = sent;
            dropped = dropped;
          })
