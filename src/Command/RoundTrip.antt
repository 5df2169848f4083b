-- ===== src/Command/RoundTrip.antt =====
-- The server reads the command that the client wrote: `Command::from_frame` on the frames of
-- `into_frame` (redis-lib/src/cmd).
use redis_demo.Base.{
  ℕ, zero, suc, ◌%◌, ◌^◌, ◌≡◌, refl, sym, ◌∙◌, ap, Bytes, codes, List, [], ◌∷◌, ◌++◌, Option, none,
  some, true, All, ok, length, arith, append_assoc, append-nil, subst, ◌<◌, ◌≢◌,
}
use redis_demo.Std.Utf8.{is_utf8}
use redis_demo.Env.{Env}
use redis_demo.Frame.{Frame, Frames, bulk, nil, cons, len, push_bulk}
use redis_demo.Parse
use redis_demo.Parse.{
  Parse, ParseError, next_string, next_bytes, next_int, next, check_done, end_of_stream,
}
use redis_demo.Command.{
  Command, Get, Publish, Duration, as_millis, from_millis, get, publish, set, subscribe,
  unsubscribe, ping, unknown,
}
use redis_demo.Command.IntoFrame.{
  get_frame, publish_frame, set_frame, push_channels, subscribe_frame, unsubscribe_frame,
  ping_frame,
}
use redis_demo.Command.Decode.{
  get_parse, publish_parse, expire_parse, set_parse, channels_loop, subscribe_parse,
  unsubscribe_parse, ping_parse, dispatch, from_frame,
}

abbrev IsText : Bytes → Type 0
IsText s = is_utf8 s ≡ true

-- What is left of an expiry on the wire: whole milliseconds, as a `u64`.
abbrev pub whole_millis : Option Duration → Option Duration
whole_millis none = none
whole_millis (some d) = some (from_millis (as_millis d % 2 ^ 64))

-- The channels as frames.
abbrev bulks : List Bytes → Frames
bulks [] = nil
bulks (s ∷ ss) = cons (bulk s) (bulks ss)

len-bulks : (ss : List Bytes) → len (bulks ss) ≡ length ss
len-bulks [] = refl
len-bulks (s ∷ ss) = ap suc (len-bulks ss)

abbrev frames_append : Frames → Frames → Frames
frames_append nil gs = gs
frames_append (cons f fs) gs = cons f (frames_append fs gs)

push-append :
    (fs gs : Frames) (s : Bytes)
    → frames_append (push_bulk fs s) gs ≡ frames_append fs (cons (bulk s) gs)
push-append nil gs s = refl
push-append (cons f fs) gs s = ap (cons f) (push-append fs gs s)

append_nil : (fs : Frames) → frames_append fs nil ≡ fs
append_nil nil = refl
append_nil (cons f fs) = ap (cons f) (append_nil fs)

push_channels-bulks :
    (fs : Frames) (ss : List Bytes) → push_channels fs ss ≡ frames_append fs (bulks ss)
unfolding push_channels
push_channels-bulks fs [] = sym (append_nil fs)
push_channels-bulks fs (s ∷ ss) =
    push_channels-bulks (push_bulk fs s) ss ∙ push-append fs (bulks ss) s

module _ (x : Env) where
  from-get : (c : Get) → IsText c.key → from_frame x (get_frame c) ≡ ok (get c)
  unfolding from_frame get_frame Parse.new next_string get_parse dispatch check_done is_utf8
  from-get c h = rw (x.to_lowercase-ascii (codes "get") (omega arith), h)

  from-publish : (c : Publish) → IsText c.channel → from_frame x (publish_frame c) ≡ ok (publish c)
  unfolding from_frame publish_frame Parse.new next_string next_bytes publish_parse dispatch
      check_done is_utf8
  from-publish c h = rw (x.to_lowercase-ascii (codes "publish") (omega arith), h)

  from-ping :
      (e : Option Bytes)
      → from_frame x (ping_frame (record { echo = e })) ≡ ok (ping (record { echo = e }))
  unfolding from_frame ping_frame Parse.new next_string next_bytes ping_parse dispatch check_done
      is_utf8
  from-ping none = rw (x.to_lowercase-ascii (codes "ping") (omega arith))
  from-ping (some s) = rw (x.to_lowercase-ascii (codes "ping") (omega arith))

  from-set :
      (k v : Bytes) (e : Option Duration)
      → IsText k
      → from_frame x (set_frame (record { key = k; value = v; expire = e }))
        ≡ ok (set (record { key = k; value = v; expire = whole_millis e }))
  unfolding from_frame set_frame Parse.new next_string next_bytes next_int set_parse expire_parse
      dispatch check_done is_utf8
  from-set k v none h = rw (x.to_lowercase-ascii (codes "set") (omega arith), h)
  from-set k v (some d) h = rw (
    x.to_lowercase-ascii (codes "set") (omega arith),
    h,
    x.to_uppercase-ascii (codes "px") (omega arith),
  )

  -- The loop takes every channel that was pushed.
  channels-loop-All :
      (ss acc : List Bytes) (k : ℕ)
      → All IsText ss
      → length ss < k
      → channels_loop k acc (record { frames = bulks ss }) ≡ ok (acc ++ ss, record { frames = nil })
  unfolding channels_loop next_string
  channels-loop-All ss acc zero h lt = absurd (omega arith)
  channels-loop-All [] acc (suc k) h lt =
      ap (λ t. ok (t, record { frames = nil })) (sym (append-nil acc))
  channels-loop-All (s ∷ ss) acc (suc k) h lt =
      rw (h.0, channels_loop)
        (channels-loop-All ss (acc ++ s ∷ []) k h.1 (omega arith)
          ∙ ap (λ t. ok (t, record { frames = nil })) (append_assoc acc (s ∷ []) ss))

  from-subscribe :
      (s : Bytes) (ss : List Bytes)
      → IsText s
      → All IsText ss
      → from_frame x (subscribe_frame (record { channels = s ∷ ss }))
        ≡ ok (subscribe (record { channels = s ∷ ss }))
  unfolding from_frame subscribe_frame Parse.new next_string subscribe_parse dispatch check_done
      is_utf8
  from-subscribe s ss h hs = rw (
    push_channels-bulks _ (s ∷ ss),
    x.to_lowercase-ascii (codes "subscribe") (omega arith),
    h,
    channels-loop-All ss (s ∷ []) (suc (len (bulks ss))) hs (omega (arith, len-bulks ss)),
  )

  from-unsubscribe :
      (ss : List Bytes)
      → All IsText ss
      → from_frame x (unsubscribe_frame (record { channels = ss }))
        ≡ ok (unsubscribe (record { channels = ss }))
  unfolding from_frame unsubscribe_frame Parse.new next_string unsubscribe_parse dispatch check_done
      is_utf8
  from-unsubscribe ss hs = rw (
    push_channels-bulks _ ss,
    x.to_lowercase-ascii (codes "unsubscribe") (omega arith),
    channels-loop-All ss [] (suc (len (bulks ss))) hs (omega (arith, len-bulks ss)),
  )

-- `into_frame` of the commands that have one; `Unknown` has none.
abbrev pub into_frame : Command → Option Frame
into_frame (get c) = some (get_frame c)
into_frame (publish c) = some (publish_frame c)
into_frame (set c) = some (set_frame c)
into_frame (subscribe c) = some (subscribe_frame c)
into_frame (unsubscribe c) = some (unsubscribe_frame c)
into_frame (ping c) = some (ping_frame c)
into_frame (unknown c) = none

-- The texts of the command are `String`s, and a subscription names a channel.
abbrev pub IsRequest : Command → Type 0
IsRequest (get c) = IsText c.key
IsRequest (publish c) = IsText c.channel
IsRequest (set c) = IsText c.key
IsRequest (subscribe c) = (c.channels ≢ []) × All IsText c.channels
IsRequest (unsubscribe c) = All IsText c.channels
IsRequest (ping c) = Unit {0}
IsRequest (unknown c) = Unit {0}

-- The command with its expiry as the wire carries it.
abbrev pub received : Command → Command
received (set c) = set (record { key = c.key; value = c.value; expire = whole_millis c.expire })
received c = c

subscribe_back :
    (x : Env) (ss : List Bytes)
    → ss ≢ []
    → All IsText ss
    → from_frame x (subscribe_frame (record { channels = ss }))
      ≡ ok (subscribe (record { channels = ss }))
subscribe_back x [] ne h = absurd (ne refl)
subscribe_back x (s ∷ ss) ne h = from-subscribe x s ss h.0 h.1

-- The frame that the client makes of a command is decoded by the server to that command, with an
-- expiry cut to whole milliseconds and to 64 bits, where the command's texts are UTF-8 and a
-- subscription names at least one channel.
pub from_frame-into_frame :
    (x : Env) (c : Command) (f : Frame)
    → into_frame c ≡ some f
    → IsRequest c
    → from_frame x f ≡ ok (received c)
from_frame-into_frame x (get c) f e h =
    subst (λ g. from_frame x g ≡ ok (get c)) (cc) (from-get x c h)
from_frame-into_frame x (publish c) f e h =
    subst (λ g. from_frame x g ≡ ok (publish c)) (cc) (from-publish x c h)
from_frame-into_frame x (set c) f e h =
    subst (λ g. from_frame x g ≡ ok (received (set c))) (cc) (from-set x c.key c.value c.expire h)
from_frame-into_frame x (subscribe c) f e h =
    subst (λ g. from_frame x g ≡ ok (subscribe c)) (cc) (subscribe_back x c.channels h.0 h.1)
from_frame-into_frame x (unsubscribe c) f e h =
    subst (λ g. from_frame x g ≡ ok (unsubscribe c)) (cc) (from-unsubscribe x c.channels h)
from_frame-into_frame x (ping c) f e h =
    subst (λ g. from_frame x g ≡ ok (ping c)) (cc) (from-ping x c.echo)
from_frame-into_frame x (unknown c) f e h = cc
