-- ===== src/Db/Consistent.antt =====
-- The invariant of the state in redis-lib/src/db.rs: `expirations` is in order and lists exactly the
-- keys that expire, each with the instant of its entry.
use redis_demo.Base.{
  ◌≡◌, ◌∙◌, Bool, false, ◌&&◌, ◌||◌, Bytes, List, Option, none, some, ◌==◌, if◌then◌else◌, ◌is◌,
  is→eq, is_refl, Bool-cases, inl, inr, arith,
}
use redis_demo.Std.HashMap
use redis_demo.Std.BTreeSet
use redis_demo.Std.BTreeSet.{Instant, IsSorted, has}
use redis_demo.Db.{Entry, State, forget, forget_entry, schedule, store}

abbrev pub instant_is : Instant → Option Instant → Bool
instant_is w none = false
instant_is w (some u) = u == w

abbrev pub expires_is : Instant → Option Entry → Bool
expires_is w none = false
expires_is w (some e) = instant_is w e.expires_at

pub record IsConsistent {T : Type 0} (st : State T) : Type 0 where
  pub sorted : IsSorted st.expirations
  pub linked :
      (key : Bytes) (w : Instant)
      → has (w, key) st.expirations ≡ expires_is w (HashMap.lookup key st.entries)

module _ (key j : Bytes) (w : Instant) (s : List (Instant × Bytes)) where
  has-forget :
      (when : Option Instant)
      → has (w, j) (forget when key s)
        ≡ (if key is j && instant_is w when then false else has (w, j) s)
  has-forget none = ground arith
  has-forget (some u) = BTreeSet.has-remove (u, key) (w, j) s ∙ ground arith

  has-forget_entry :
      (prev : Option Entry)
      → has (w, j) (forget_entry prev key s)
        ≡ (if key is j && expires_is w prev then false else has (w, j) s)
  has-forget_entry none = ground arith
  has-forget_entry (some e) = has-forget e.expires_at

  has-schedule :
      (when : Option Instant)
      → has (w, j) (schedule when key s) ≡ ((key is j && instant_is w when) || has (w, j) s)
  has-schedule none = ground arith
  has-schedule (some u) = BTreeSet.has-insert (u, key) (w, j) s ∙ ground arith

module _ (key : Bytes) (s : List (Instant × Bytes)) where
  forget-IsSorted : (when : Option Instant) → IsSorted s → IsSorted (forget when key s)
  forget-IsSorted none h = h
  forget-IsSorted (some u) h = BTreeSet.remove-IsSorted (u, key) s h

  forget_entry-IsSorted : (prev : Option Entry) → IsSorted s → IsSorted (forget_entry prev key s)
  forget_entry-IsSorted none h = h
  forget_entry-IsSorted (some e) h = forget-IsSorted e.expires_at h

  schedule-IsSorted : (when : Option Instant) → IsSorted s → IsSorted (schedule when key s)
  schedule-IsSorted none h = h
  schedule-IsSorted (some u) h = BTreeSet.insert-IsSorted (u, key) s h

pub store-IsConsistent :
    {T : Type 0} (key value : Bytes) (when : Option Instant) (st : State T)
    → IsConsistent st
    → IsConsistent (store key value when st)
unfolding store
store-IsConsistent key value when st h = record {
  sorted = schedule-IsSorted key _ when (forget_entry-IsSorted key _ _ h.sorted);
  linked = λ j w.
      let prev = HashMap.lookup key st.entries in
      has-schedule key j w (forget_entry prev key st.expirations) when
      ∙ rw
          (
            has-forget_entry key j w st.expirations prev,
            HashMap.lookup-insert key j (record { bytes = value; expires_at = when }) st.entries,
          )
          (elim (Bool-cases (key is j)) [
            | inl same ↦ rw (← is→eq key j same) (ground (arith, h.linked key w, is_refl key))
            | inr different ↦ rw different (h.linked j w)
          ]);
}
