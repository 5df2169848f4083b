-- ===== src/Command/Ending.antt =====
-- `Command::from_frame` (redis-lib/src/cmd/mod.rs) never uses up its fuel, on any frame.
use redis_demo.Base.{
  ℕ, zero, suc, ◌<◌, Bytes, codes, List, [], ◌∷◌, ◌++◌, Option, none, some, ◌is◌, Outcome, ok, err,
  panic, ◌>>=◌, arith, returned, failed, panicked, Ensures-if, Halts, Halts-bind, Halts-map_err,
  out_of_fuel,
}
use redis_demo.Std.Utf8.{is_utf8}
use redis_demo.Env.{Env}
use redis_demo.Frame.{Frame, Frames, simple, error, integer, bulk, null, array, nil, cons, len}
use redis_demo.Parse
use redis_demo.Parse.{
  Parse, ParseError, end_of_stream, other, next_frame, string_of, bytes_of, number_of, int_of, next,
  next_string, next_bytes, next_int, check_done, some_frame, none_left,
}
use redis_demo.Failure.{Failure}
use redis_demo.Command.{Command, get, publish, set, subscribe, unsubscribe, ping}
use redis_demo.Command.Decode.{
  lift, get_parse, publish_parse, set_parse, expire_parse, channels_loop, channels_from,
  subscribe_parse, unsubscribe_parse, ping_of, ping_parse, finish, dispatch, from_frame,
}

some_frame-Halts : (r : Option Frame × Parse) → Halts (some_frame r)
some_frame-Halts (none, p) = failed _
some_frame-Halts (some f, p) = returned _ tt

none_left-Halts : (r : Option Frame × Parse) → Halts (none_left r)
none_left-Halts (none, p) = returned _ tt
none_left-Halts (some f, p) = failed _

string_of-Halts : (f : Frame) → Halts (string_of f)
string_of-Halts (simple s) = returned _ tt
string_of-Halts (bulk s) = Ensures-if (is_utf8 s) (returned _ tt) (failed _)
string_of-Halts (error s) = failed _
string_of-Halts (integer n) = failed _
string_of-Halts null = failed _
string_of-Halts (array fs) = failed _

bytes_of-Halts : (f : Frame) → Halts (bytes_of f)
bytes_of-Halts (simple s) = returned _ tt
bytes_of-Halts (bulk s) = returned _ tt
bytes_of-Halts (error s) = failed _
bytes_of-Halts (integer n) = failed _
bytes_of-Halts null = failed _
bytes_of-Halts (array fs) = failed _

number_of-Halts : (o : Option ℕ) → Halts (number_of o)
number_of-Halts none = failed _
number_of-Halts (some n) = returned _ tt

int_of-Halts : (x : Env) (f : Frame) → Halts (int_of x f)
int_of-Halts x (simple s) = number_of-Halts (x.atoi s)
int_of-Halts x (bulk s) = number_of-Halts (x.atoi s)
int_of-Halts x (error s) = failed _
int_of-Halts x (integer n) = returned _ tt
int_of-Halts x null = failed _
int_of-Halts x (array fs) = failed _

next_string-Halts : (p : Parse) → Halts (next_string p)
unfolding next_string next
next_string-Halts p =
    Halts-bind (some_frame-Halts (next_frame p.frames))
      λ (f, p'). Halts-bind (string_of-Halts f) λ s. returned _ tt

next_bytes-Halts : (p : Parse) → Halts (next_bytes p)
unfolding next_bytes next
next_bytes-Halts p =
    Halts-bind (some_frame-Halts (next_frame p.frames))
      λ (f, p'). Halts-bind (bytes_of-Halts f) λ s. returned _ tt

next_int-Halts : (x : Env) (p : Parse) → Halts (next_int x p)
unfolding next_int next
next_int-Halts x p =
    Halts-bind (some_frame-Halts (next_frame p.frames))
      λ (f, p'). Halts-bind (int_of-Halts x f) λ s. returned _ tt

lift-Halts {ℓ} : {A : Type ℓ} {m : Outcome ParseError A} → Halts m → Halts (lift m)
lift-Halts h = Halts-map_err _ h

round-Halts :
    (k : ℕ) (channels : List Bytes) (p p' : Parse) (o : Outcome ParseError Bytes)
    → Halts o
    → ((s : Bytes) → Halts (channels_loop k (channels ++ s ∷ []) p'))
    → Halts {E = ParseError} {A = List Bytes × Parse}
        (elim (◌>>=◌ {B = Bytes × Parse} o λ s. ok (s, p')) [
          | ok (s, q) ↦ channels_loop k (channels ++ s ∷ []) q
          | err end_of_stream ↦ ok (channels, p)
          | err (other e) ↦ err (other e)
          | panic ↦ panic
          | out_of_fuel ↦ out_of_fuel
        ])
round-Halts k channels p p' (ok s) h next = next s
round-Halts k channels p p' (err end_of_stream) h next = returned _ tt
round-Halts k channels p p' (err (other e)) h next = failed _
round-Halts k channels p p' panic h next = panicked
round-Halts k channels p p' out_of_fuel h next = elim h [ ]

channels_loop-Halts :
    (k : ℕ) (channels : List Bytes) (fs : Frames)
    → len fs < k
    → Halts (channels_loop k channels (record { frames = fs }))
unfolding channels_loop next_string next
channels_loop-Halts zero channels fs h = absurd (omega arith)
channels_loop-Halts (suc k) channels nil h = returned _ tt
channels_loop-Halts (suc k) channels (cons f fs) h =
    round-Halts k channels (record { frames = cons f fs }) (record { frames = fs }) (string_of f)
      (string_of-Halts f) λ s. channels_loop-Halts k (channels ++ s ∷ []) fs (omega arith)

channels_from-Halts : (channels : List Bytes) (p : Parse) → Halts (channels_from channels p)
channels_from-Halts channels p =
    channels_loop-Halts (suc (len p.frames)) channels p.frames (omega arith)

get_parse-Halts : (p : Parse) → Halts (get_parse p)
unfolding get_parse
get_parse-Halts p = Halts-bind (lift-Halts (next_string-Halts p)) λ r. returned _ tt

publish_parse-Halts : (p : Parse) → Halts (publish_parse p)
unfolding publish_parse
publish_parse-Halts p =
    Halts-bind (lift-Halts (next_string-Halts p))
      λ (s, p'). Halts-bind (lift-Halts (next_bytes-Halts p')) λ r. returned _ tt

expire_parse-Halts :
    (x : Env) (p : Parse) (o : Outcome ParseError (Bytes × Parse))
    → Halts o
    → Halts (expire_parse x p o)
unfolding expire_parse
expire_parse-Halts x p _ (returned (s, p') h) =
    let number = next_int-Halts x p' in
    Ensures-if (x.to_uppercase s is codes "EX") (Halts-bind (lift-Halts number) λ r. returned _ tt)
      (Ensures-if (x.to_uppercase s is codes "PX")
        (Halts-bind (lift-Halts number) λ r. returned _ tt) (failed _))
expire_parse-Halts x p _ (failed end_of_stream) = returned _ tt
expire_parse-Halts x p _ (failed (other e)) = failed _
expire_parse-Halts x p _ panicked = panicked

set_parse-Halts : (x : Env) (p : Parse) → Halts (set_parse x p)
unfolding set_parse
set_parse-Halts x p = Halts-bind (lift-Halts (next_string-Halts p)) λ (key, p₁).
    Halts-bind (lift-Halts (next_bytes-Halts p₁)) λ (value, p₂).
      Halts-bind (expire_parse-Halts x p₂ _ (next_string-Halts p₂)) λ r. returned _ tt

subscribe_parse-Halts : (p : Parse) → Halts (subscribe_parse p)
unfolding subscribe_parse
subscribe_parse-Halts p =
    Halts-bind (lift-Halts (next_string-Halts p)) λ (first, p').
      Halts-bind (lift-Halts (channels_from-Halts (first ∷ []) p')) λ r. returned _ tt

unsubscribe_parse-Halts : (p : Parse) → Halts (unsubscribe_parse p)
unfolding unsubscribe_parse
unsubscribe_parse-Halts p = Halts-bind (lift-Halts (channels_from-Halts [] p)) λ r. returned _ tt

ping_of-Halts : (p : Parse) (o : Outcome ParseError (Bytes × Parse)) → Halts o → Halts (ping_of p o)
ping_of-Halts p _ (returned (s, p') h) = returned _ tt
ping_of-Halts p _ (failed end_of_stream) = returned _ tt
ping_of-Halts p _ (failed (other e)) = failed _
ping_of-Halts p _ panicked = panicked

ping_parse-Halts : (p : Parse) → Halts (ping_parse p)
unfolding ping_parse
ping_parse-Halts p = ping_of-Halts p _ (next_bytes-Halts p)

finish-Halts {ℓ} :
    {A : Type ℓ} (tag : A → Command) {r : Outcome Failure (A × Parse)}
    → Halts r
    → Halts (finish tag r)
unfolding check_done
finish-Halts tag h =
    Halts-bind h
      λ (c, p). Halts-bind (lift-Halts (none_left-Halts (next_frame p.frames))) λ _. returned _ tt

dispatch-Halts : (x : Env) (name : Bytes) (p : Parse) → Halts (dispatch x name p)
unfolding dispatch
dispatch-Halts x name p = Ensures-if (name is codes "get") (finish-Halts get (get_parse-Halts p)) (
    Ensures-if (name is codes "publish") (finish-Halts publish (publish_parse-Halts p)) (
      Ensures-if (name is codes "set") (finish-Halts set (set_parse-Halts x p)) (
        Ensures-if (name is codes "subscribe") (finish-Halts subscribe (subscribe_parse-Halts p)) (
          Ensures-if (name is codes "unsubscribe")
            (finish-Halts unsubscribe (unsubscribe_parse-Halts p))
            (Ensures-if (name is codes "ping") (finish-Halts ping (ping_parse-Halts p))
              (returned _ tt))))))

new-Halts : (f : Frame) → Halts (Parse.new f)
unfolding Parse.new
new-Halts (simple s) = failed _
new-Halts (error s) = failed _
new-Halts (integer n) = failed _
new-Halts (bulk s) = failed _
new-Halts null = failed _
new-Halts (array fs) = returned _ tt

-- `from_frame` returns, fails or panics, whatever the frame: it never uses up its fuel.
pub from_frame-Halts : (x : Env) (f : Frame) → Halts (from_frame x f)
unfolding from_frame
from_frame-Halts x f = Halts-bind (lift-Halts (new-Halts f)) λ p.
    Halts-bind (lift-Halts (next_string-Halts p))
      λ (name, p'). dispatch-Halts x (x.to_lowercase name) p'
