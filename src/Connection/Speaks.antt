-- ===== src/Connection/Speaks.antt =====
-- A connection (redis-lib/src/connection.rs) speaks in whole frames, and does not speak while it reads.
use redis_demo.Base.{
  ℕ, zero, suc, ◌≡◌, refl, sym, ◌∙◌, ap, Bytes, ◌++◌, append_assoc, append-nil, Option, none, some,
  ◌==◌, length, if◌then◌else◌, Outcome, ok, err, ◌>>=◌, Ensures, returned as ends, failed, panicked,
  Ensures-bind, Ensures-weaken, Ensures-if, Halts-map_err, length-append, ◌<◌, Bool-cases, inl, inr,
  false, arith,
}
use redis_demo.Env.{Env, Cursor}
use redis_demo.Frame.Decoder.Progress.{check-Ensures}
use redis_demo.Frame.Decoder.Ending.{parse-Ensures}
use redis_demo.Frame.{Error, incomplete, other, Frame, Frames, nil, cons}
use redis_demo.Frame.Wire.{encode, encode_items}
use redis_demo.Failure.{Failure, OrIo, returned, broken, reset_by_peer}
use redis_demo.Connection.{Stream, Connection, Breaks}
use redis_demo.Connection.Write.{lift_io, write_frame}
use redis_demo.Connection.Write.Sends.{Sent, IsFlat, write_frame-OrIo}
use redis_demo.Connection.Read.{
  take_frame, parse_checked, parse_frame, read_round, read_frame_fuel, read_frame,
}

abbrev pub AreFlat : Frames → Type 0
AreFlat nil = Unit {0}
AreFlat (cons f fs) = IsFlat f × AreFlat fs

abbrev joined : Frames → Frames → Frames
joined nil gs = gs
joined (cons f fs) gs = cons f (joined fs gs)

joined-flat : (fs gs : Frames) → AreFlat fs → AreFlat gs → AreFlat (joined fs gs)
joined-flat nil gs h k = k
joined-flat (cons f fs) gs h k = (h.0, joined-flat fs gs h.1 k)

encode-joined : (fs gs : Frames) → encode_items (joined fs gs) ≡ encode_items fs ++ encode_items gs
unfolding encode_items
encode-joined nil gs = refl
encode-joined (cons f fs) gs =
    ap (λ b. encode f ++ b) (encode-joined fs gs) ∙ sym (append_assoc (encode f) _ _)

module _ {S : Type 0} (t : Stream S) where
  -- `c'` has written some frames more than `c`, none an array of arrays.
  pub record Speaks (c c' : Connection S) : Type 0 where
    pub frames : Frames
    pub flat : AreFlat frames
    pub spoken : t.written c'.stream ≡ t.written c.stream ++ encode_items frames

  pub Speaks-quiet : (c c' : Connection S) → t.written c'.stream ≡ t.written c.stream → Speaks c c'
  unfolding encode_items
  Speaks-quiet c c' e = record {
    frames = nil;
    flat = tt;
    spoken = e ∙ sym (append-nil (t.written c.stream));
  }

  pub Speaks-trans : (c d e : Connection S) → Speaks c d → Speaks d e → Speaks c e
  Speaks-trans c d e h k = record {
    frames = joined h.frames k.frames;
    flat = joined-flat h.frames k.frames h.flat k.flat;
    spoken =
        k.spoken
        ∙ ap (λ w. w ++ encode_items k.frames) h.spoken
        ∙ append_assoc (t.written c.stream) _ _
        ∙ ap (λ w. t.written c.stream ++ w) (sym (encode-joined h.frames k.frames));
  }

  pub write_frame-Speaks :
      (c : Connection S) (f : Frame) → IsFlat f → Ensures (Speaks c) (write_frame t c f)
  unfolding encode_items
  write_frame-Speaks c f h = go (write_frame-OrIo t c f h)
    where
      go :
          {m : Outcome Failure (Connection S)}
          → OrIo (Breaks t) (Sent t c f) m
          → Ensures (Speaks c) m
      go (returned c' s) = ends c' (record {
        frames = cons f nil;
        flat = (h, tt);
        spoken = s.written_frame ∙ ap (λ b. t.written c.stream ++ b) (sym (append-nil (encode f)));
      })
      go (broken h) = failed _

  module _ (x : Env) where
    abbrev IsSame : Connection S → Option Frame × Connection S → Type 0
    IsSame c r = r.1.stream ≡ c.stream

    take_frame-IsSame : (c : Connection S) (buf : Cursor) → Ensures (IsSame c) (take_frame x c buf)
    unfolding take_frame
    take_frame-IsSame c buf =
        Ensures-bind
          (Halts-map_err Failure.frame (
            Ensures-weaken (parse-Ensures x (record { get_ref = buf.get_ref; position = 0 }))
              λ _ _. tt))
          λ r _. ends _ refl

    parse_frame-IsSame : (c : Connection S) → Ensures (IsSame c) (parse_frame x c)
    unfolding parse_frame parse_checked
    parse_frame-IsSame c = go (check-Ensures x (record { get_ref = c.read_buf; position = 0 }))
      where
        go :
            {P : Cursor → Type 0} {o : Outcome Error Cursor}
            → Ensures P o
            → Ensures (IsSame c) (parse_checked x c o)
        go (ends buf h) = take_frame-IsSame c buf
        go (failed incomplete) = ends _ refl
        go (failed (other e)) = failed _
        go panicked = panicked

    -- A read writes nothing, whatever arrives.
    abbrev pub IsQuiet : Connection S → Option Frame × Connection S → Type 0
    IsQuiet c r = t.written r.1.stream ≡ t.written c.stream

    some_bytes : (n : ℕ) → (n == 0) ≡ false → 0 < n
    some_bytes n h = ground arith

    read_round-IsQuiet :
        (k : ℕ) (again : Connection S → Outcome Failure (Option Frame × Connection S))
        (c : Connection S) (r : Option Frame × Connection S)
        → ((c' : Connection S)
            → length (t.arriving c'.stream) < k
            → Ensures (IsQuiet c') (again c'))
        → length (t.arriving c.stream) < suc k
        → IsSame c r
        → Ensures (IsQuiet c) (read_round x t again r)
    unfolding read_round
    read_round-IsQuiet k again c (some f, d) next fuel same = ends _ (ap t.written same)
    read_round-IsQuiet k again c (none, d) next fuel same = go (t.read_buf d.stream) refl
      where
        go :
            (o : Option (Bytes × S))
            → t.read_buf d.stream ≡ o
            → Ensures (IsQuiet c) (do
              (bytes, s) ← lift_io o
              let c' : Connection S = record { stream = s; read_buf = d.read_buf ++ bytes }
              let rest = again c'
              if length bytes == 0
                  then if length c'.read_buf == 0 then ok (none, c') else err reset_by_peer
                  else rest)
        go none e = failed _
        go (some (bytes, s)) e =
            let (came, kept, flushed) = t.read_buf_lem d.stream s bytes e in
            let quiet : t.written s ≡ t.written c.stream = kept ∙ ap t.written same in
            elim (Bool-cases (length bytes == 0)) [
              | inl end ↦
                  rw end (Ensures-if (length (d.read_buf ++ bytes) == 0) (ends _ quiet) (failed _))
              | inr some_more ↦ rw some_more (
                  Ensures-weaken
                    (next (record { stream = s; read_buf = d.read_buf ++ bytes })
                      (omega (
                        arith,
                        some_bytes (length bytes) some_more,
                        ap length came,
                        length-append bytes (t.arriving s),
                        ap (λ q. length (t.arriving q)) same,
                      )))
                    λ r q. q ∙ quiet)
            ]

    read_fuel-IsQuiet :
        (k : ℕ) (c : Connection S)
        → length (t.arriving c.stream) < k
        → Ensures (IsQuiet c) (read_frame_fuel x t k c)
    unfolding read_frame_fuel
    read_fuel-IsQuiet zero c fuel = absurd (omega arith)
    read_fuel-IsQuiet (suc k) c fuel =
        Ensures-bind (parse_frame-IsSame c)
          λ r same. read_round-IsQuiet k (read_frame_fuel x t k) c r (read_fuel-IsQuiet k) fuel same

    pub read_frame-IsQuiet : (c : Connection S) → Ensures (IsQuiet c) (read_frame x t c)
    unfolding read_frame
    read_frame-IsQuiet c = read_fuel-IsQuiet (suc (length (t.arriving c.stream))) c (omega arith)
