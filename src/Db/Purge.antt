-- ===== src/Db/Purge.antt =====
-- `Shared::purge_expired_keys` (redis-lib/src/db.rs) removes exactly the entries that have expired,
-- and returns the instant of the next one.
use redis_demo.Base.{
  ℕ, zero, suc, ◌≤◌, ◌<◌, ◌≡◌, refl, sym, ◌∙◌, ap, subst, Bool, true, false, Bytes, List, [], ◌∷◌,
  Option, none, some, ltb, leb, if◌then◌else◌, ◌is◌, is→eq, is_refl, Bool-cases, inl, inr, length,
  arith, All, ltb→lt, ltb→le,
}
use redis_demo.Std.HashMap
use redis_demo.Std.BTreeSet
use redis_demo.Std.BTreeSet.{Instant, IsSorted, has}
use redis_demo.Db.{Entry, State, head_instant, purge_loop, purge_state}
use redis_demo.Db.Consistent.{IsConsistent, instant_is, expires_is}

abbrev pub has_expired : Instant → Option Instant → Bool
has_expired now none = false
has_expired now (some w) = leb w now

-- The entry if it has not expired.
abbrev pub keep_live : Instant → Option Entry → Option Entry
keep_live now none = none
keep_live now (some e) = if has_expired now e.expires_at then none else some e

-- What a purge at `now` that returned `next` has made of the state `st`.
pub record IsPurged {T : Type 0} (now : Instant) (st : State T) (next : Option Instant)
    (st' : State T) : Type 0 where
  pub consistent : IsConsistent st'
  pub live :
      (j : Bytes) → HashMap.lookup j st'.entries ≡ keep_live now (HashMap.lookup j st.entries)
  pub next_is_first : next ≡ head_instant st'.expirations
  pub later : All (λ q. now < q.0) st'.expirations
  pub same_channels : st'.pub_sub ≡ st.pub_sub
  pub same_shutdown : st'.shutdown ≡ st.shutdown

-- An entry whose instant, if any, is in a set of later instants has not expired.
live_of_later :
    (now : Instant) (j : Bytes) (s : List (Instant × Bytes)) (o : Option Entry)
    → All (λ q. now < q.0) s
    → ((w : Instant) → has (w, j) s ≡ expires_is w o)
    → o ≡ keep_live now o
live_of_later now j s none later linked = refl
live_of_later now j s (some e) later linked = go e.expires_at linked
  where
    go :
        (when : Option Instant)
        → ((w : Instant) → has (w, j) s ≡ instant_is w when)
        → some e ≡ (if has_expired now when then none else some e)
    go none h = refl
    go (some u) h =
        let lt = BTreeSet.has-All (λ q. now < q.0) (u, j) s later (h u ∙ ground arith) in
        ground arith

pub later_of_sorted :
    (now t : Instant) (s : List (Instant × Bytes))
    → now < t
    → All (λ q. t ≤ q.0) s
    → All (λ q. now < q.0) s
later_of_sorted now t [] h hs = tt
later_of_sorted now t (q ∷ s) h hs = (omega (arith, hs.0), later_of_sorted now t s h hs.1)

module _ {T : Type 0} (now : Instant) where
  -- Nothing is left to remove.
  pub done_purging :
      (st : State T)
      → IsConsistent st
      → All (λ q. now < q.0) st.expirations
      → IsPurged now st (head_instant st.expirations) st
  done_purging st h later = record {
    consistent = h;
    live = λ j. live_of_later now j st.expirations _ later (h.linked j);
    next_is_first = refl;
    later = later;
    same_channels = refl;
    same_shutdown = refl;
  }

  abbrev without : Instant → Bytes → State T → State T
  without when key st = record {
    entries = HashMap.remove key st.entries;
    pub_sub = st.pub_sub;
    expirations = BTreeSet.remove (when, key) st.expirations;
    shutdown = st.shutdown;
  }

  module _ (when : Instant) (key : Bytes) (st : State T) (h : IsConsistent st)
      (first : has (when, key) st.expirations ≡ true) where
    without-IsConsistent : IsConsistent (without when key st)
    without-IsConsistent = record {
      sorted = BTreeSet.remove-IsSorted (when, key) st.expirations h.sorted;
      linked = λ j w.
          BTreeSet.has-remove (when, key) (w, j) st.expirations
          ∙ rw (HashMap.lookup-remove key j st.entries) (elim (Bool-cases (key is j)) [
            | inl same ↦
                rw (← is→eq key j same)
                  (ground (arith, h.linked key w, h.linked key when, is_refl key))
            | inr different ↦ ground (arith, h.linked j w)
          ]);
    }

    without-live :
        when ≤ now
        → (j : Bytes)
        → keep_live now (HashMap.lookup j (HashMap.remove key st.entries))
          ≡ keep_live now (HashMap.lookup j st.entries)
    without-live due j = rw (HashMap.lookup-remove key j st.entries) (elim (Bool-cases (key is j)) [
      | inl same ↦ rw (← is→eq key j same) (ground (arith, h.linked key when, is_refl key))
      | inr different ↦ rw different
    ])

  -- The rounds of the loop.
  module _ (st : State T) where
    purge_empty : (k : ℕ) → st.expirations ≡ [] → purge_loop k now st ≡ (none, st)
    unfolding purge_loop
    purge_empty zero e = refl
    purge_empty (suc k) e = ground arith

    module _ (k : ℕ) (when : Instant) (key : Bytes) (s : List (Instant × Bytes))
        (e : st.expirations ≡ (when, key) ∷ s) where
      purge_future : ltb now when ≡ true → purge_loop (suc k) now st ≡ (some when, st)
      unfolding purge_loop
      purge_future future = ground arith

      purge_due :
          ltb now when ≡ false → purge_loop (suc k) now st ≡ purge_loop k now (without when key st)
      unfolding purge_loop
      purge_due due = ground arith

  abbrev Purges : State T → Option Instant × State T → Type 0
  Purges st r = IsPurged now st r.0 r.1

  Purges-next :
      (st : State T) (n : Option Instant)
      → IsConsistent st
      → All (λ q. now < q.0) st.expirations
      → head_instant st.expirations ≡ n
      → Purges st (n, st)
  Purges-next st n h later e = subst (λ m. IsPurged now st m st) e (done_purging st h later)

  Purges-after :
      (when : Instant) (key : Bytes) (st : State T) (r : Option Instant × State T)
      → IsConsistent st
      → has (when, key) st.expirations ≡ true
      → when ≤ now
      → Purges (without when key st) r
      → Purges st r
  Purges-after when key st r h first due p = record {
    consistent = p.consistent;
    live = λ j. p.live j ∙ without-live when key st h first due j;
    next_is_first = p.next_is_first;
    later = p.later;
    same_channels = p.same_channels;
    same_shutdown = p.same_shutdown;
  }

  purge_loop-Purges :
      (k : ℕ) (st : State T) (s : List (Instant × Bytes))
      → st.expirations ≡ s
      → IsConsistent st
      → length s ≤ k
      → Purges st (purge_loop k now st)
  purge_loop-Purges k st [] e h fits =
      rw (purge_empty st k e)
        (Purges-next st none h (subst (All (λ q. now < q.0)) (sym e) tt) (ap head_instant e))
  purge_loop-Purges zero st (q ∷ s) e h fits = absurd (omega arith)
  purge_loop-Purges (suc k) st ((when, key) ∷ s) e h fits =
      let sorted = subst IsSorted e h.sorted in
      elim (Bool-cases (ltb now when)) [
        | inl future ↦
            let lt = ltb→lt now when future in
            rw (purge_future st k when key s e future) (
              Purges-next st (some when) h
                (subst (All (λ q. now < q.0)) (sym e) (lt, later_of_sorted now when s lt sorted.0))
                (ap head_instant e))
        | inr due ↦
            let first = ap (has (when, key)) e ∙ BTreeSet.has_first (when, key) s in
            rw (purge_due st k when key s e due) (
              Purges-after when key st _ h first (ltb→le now when due) (
                purge_loop-Purges k (without when key st)
                  (BTreeSet.remove (when, key) ((when, key) ∷ s))
                  (ap (BTreeSet.remove (when, key)) e) (without-IsConsistent when key st h first)
                  (omega (arith, BTreeSet.length-remove_first (when, key) s))))
      ]

purge_running :
    {T : Type 0} (now : Instant) (st : State T)
    → st.shutdown ≡ false
    → purge_state now st ≡ purge_loop (length st.expirations) now st
unfolding purge_state
purge_running now st running = ground arith

-- On a consistent state that is not shut down, a purge at `now` leaves a consistent state with
-- exactly the entries whose instant, if they have one, is after `now`; every instant left in
-- `expirations` is after `now`, and the first of them, or none, is returned. The channels and the
-- shutdown flag are as before.
pub purge_state-IsPurged :
    {T : Type 0} (now : Instant) (st : State T)
    → IsConsistent st
    → st.shutdown ≡ false
    → IsPurged now st (purge_state now st).0 (purge_state now st).1
purge_state-IsPurged now st h running =
    subst (Purges now st) (sym (purge_running now st running))
      (purge_loop-Purges now (length st.expirations) st st.expirations refl h (omega arith))
