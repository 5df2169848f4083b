-- ===== src/Connection/Read/Ends.antt =====
-- What `read_frame` (redis-lib/src/connection.rs) does when the peer closes the stream.
use redis_demo.Base.{
  ℕ, zero, suc, ◌<◌, ◌≡◌, ◌≢◌, refl, sym, ◌∙◌, ap, subst, [], ◌∷◌, ◌++◌, Bytes, Option, none, some,
  ◌==◌, if◌then◌else◌, length, append_assoc, append-nil, Outcome, ok, err, ◌>>=◌, arith,
  length-append,
}
use redis_demo.Env.{Env}
use redis_demo.Frame.{Frame}
use redis_demo.Frame.Wire.{encode, IsWire}
use redis_demo.Failure.{Failure, io, reset_by_peer}
use redis_demo.Connection.{Stream, Connection, Breaks, read_breaks}
use redis_demo.Connection.Write.{lift_io}
use redis_demo.Connection.Read.{read_round, read_frame_fuel, read_frame}
use redis_demo.Connection.Read.Reads.{parse_frame-waits, suc-ne-zero}

-- The run on the bytes `b`, which are no whole frame, has seen the end of the stream: there is no
-- frame if there are no bytes, else the connection was reset.
pub data Ends {S : Type 0} (t : Stream S) (b : Bytes)
    : Outcome Failure (Option Frame × Connection S) → Type 0 where
  closed : (c : Connection S) → b ≡ [] → Ends t b (ok (none, c))
  reset : b ≢ [] → Ends t b (err reset_by_peer)
  failed : Breaks t → Ends t b (err io)

length_pos : (m : Bytes) → m ≢ [] → 0 < length m
length_pos [] ne = absurd (ne refl)
length_pos (a ∷ m) ne = omega arith

module _ {S : Type 0} (x : Env) (t : Stream S) where
  -- No more bytes come.
  Ends-here :
      (b : Bytes) (s : S)
      → (let c : Connection S = record { stream = s; read_buf = b } in
          Ends t b (if length b == 0 then ok (none, c) else err reset_by_peer))
  Ends-here [] s = closed _ refl
  Ends-here (a ∷ b) s = rw (suc-ne-zero (length b)) (reset cc)

  round-Ends :
      (again : Connection S → Outcome Failure (Option Frame × Connection S)) (c : Connection S)
      (b : Bytes)
      → c.read_buf ++ t.arriving c.stream ≡ b
      → ((c' : Connection S)
          → c'.read_buf ++ t.arriving c'.stream ≡ b
          → length (t.arriving c'.stream) < length (t.arriving c.stream)
          → Ends t b (again c'))
      → Ends t b (read_round x t again (none, c))
  unfolding read_round
  round-Ends again c b e next = go (t.read_buf c.stream) refl
    where
      go :
          (o : Option (Bytes × S))
          → t.read_buf c.stream ≡ o
          → Ends t b (do
            (bytes, s) ← lift_io o
            let c' : Connection S = record { stream = s; read_buf = c.read_buf ++ bytes }
            let rest = again c'
            if length bytes == 0
                then if length c'.read_buf == 0 then ok (none, c') else err reset_by_peer
                else rest)
      go none h = failed (read_breaks c.stream h)
      go (some ([], s)) h =
          subst
            (λ d.
              (let c' : Connection S = record { stream = s; read_buf = c.read_buf ++ [] } in
                Ends t d
                  (if length (c.read_buf ++ []) == 0 then ok (none, c') else err reset_by_peer)))
            (sym (ap (λ m. c.read_buf ++ m) (t.read_buf_end c.stream s h)) ∙ e)
            (Ends-here (c.read_buf ++ []) s)
      go (some (a ∷ bytes, s)) h =
          let (came, w, g) = t.read_buf_lem c.stream s (a ∷ bytes) h in
          let next_c : Connection S = record { stream = s; read_buf = c.read_buf ++ a ∷ bytes } in
          rw (suc-ne-zero (length bytes)) (
            next next_c
              (append_assoc c.read_buf (a ∷ bytes) (t.arriving s)
                ∙ ap (λ m. c.read_buf ++ m) (sym came)
                ∙ e)
              (omega (arith, ap length came, length-append bytes (t.arriving s))))

  module _ (f : Frame) (w : IsWire x.max_capacity f) (b missing : Bytes)
      (e : b ++ missing ≡ encode f) (some_missing : missing ≢ []) where
    is_short : length b < length (encode f)
    is_short = omega (arith, ap length e, length-append b missing, length_pos missing some_missing)

    fuel-Ends :
        (k : ℕ) (c : Connection S)
        → c.read_buf ++ t.arriving c.stream ≡ b
        → length (t.arriving c.stream) < k
        → Ends t b (read_frame_fuel x t k c)
    unfolding read_frame_fuel
    fuel-Ends zero c h lt = absurd (omega arith)
    fuel-Ends (suc k) c h lt =
        rw
          (parse_frame-waits x f w c (t.arriving c.stream ++ missing) []
            (sym (append_assoc c.read_buf (t.arriving c.stream) missing)
              ∙ ap (λ m. m ++ missing) h
              ∙ e
              ∙ sym (append-nil (encode f)))
            (omega (arith, ap length h, length-append c.read_buf (t.arriving c.stream), is_short)))
          (round-Ends (read_frame_fuel x t k) c b h λ c' h' less. fuel-Ends k c' h' (omega arith))

    -- If the bytes in the buffer and those that still arrive before the end of the stream are only a
    -- part of the wire form of a frame, `read_frame` ends: it returns no frame if there are no such
    -- bytes at all, else it fails with "connection reset by peer", or it meets an error of the stream.
    pub read_frame-Ends :
        (c : Connection S) → c.read_buf ++ t.arriving c.stream ≡ b → Ends t b (read_frame x t c)
    unfolding read_frame
    read_frame-Ends c h = fuel-Ends (suc (length (t.arriving c.stream))) c h (omega arith)
