-- ===== src/IdempotencyLock/Dedup.antt =====
-- How often a webhook event is let through by src/adapters/idempotency-lock.ts.
use jabr.Base.{
  ℕ, ◌+◌, ◌*◌, ◌≤◌, ◌-◌, String, ◌≡◌, refl, true, false, not, ◌&&◌, Option, none, some, List, [],
  ◌∷◌, arith, if◌then◌else◌, str_eq, eq_iff, All, lookup, lookup-insert, leb, HasDistinctKeys,
  insert-HasDistinctKeys, filter_entries-HasDistinctKeys, lookup-filter_entries, ◌∙◌, Bool-cases,
  inl, inr,
}
use jabr.IdempotencyLock.{IdempotencyLock, new_lock, acquire, gc, ttl_us}

pub data Op : Type 0 where
  acquire_op : (event_id : String) (now : ℕ) → Op
  gc_op : (now : ℕ) → Op

abbrev pub time_of : Op → ℕ
time_of (acquire_op event_id now) = now
time_of (gc_op now) = now

-- The lock after a sequence of calls, the latest first.
unfoldable pub after : IdempotencyLock → List Op → IdempotencyLock
after s [] = s
after s (acquire_op event_id now ∷ earlier) = (acquire (after s earlier) event_id now).0
after s (gc_op now ∷ earlier) = gc (after s earlier) now

-- When an event was let through, the latest first.
pub processed : IdempotencyLock → String → List Op → List ℕ
processed s e [] = []
processed s e (acquire_op event_id now ∷ earlier) =
    let before = processed s e earlier in
    if str_eq event_id e && (acquire (after s earlier) event_id now).1.acquired
    then now ∷ before
    else before
processed s e (gc_op now ∷ earlier) = processed s e earlier

abbrev pub UpTo : ℕ → List Op → Type 0
UpTo now earlier = All (λ op. time_of op ≤ now) earlier

abbrev pub IsChronological : List Op → Type 0
IsChronological [] = Unit
IsChronological (op ∷ earlier) = UpTo (time_of op) earlier × IsChronological earlier

-- each entry comes at least `gap` after the one before it
abbrev pub AreApart : ℕ → List ℕ → Type 0
AreApart gap [] = Unit
AreApart gap (t ∷ []) = Unit
AreApart gap (t ∷ u ∷ ts) = (u + gap ≤ t) × AreApart gap (u ∷ ts)

-- What the table knows of an event that was let through last at the head of `times`.
abbrev Agrees : ℕ → ℕ → Option ℕ → List ℕ → Type 0
Agrees gap until (some t) [] = ⊥
Agrees gap until (some t) (u ∷ us) = t ≡ u
Agrees gap until none [] = Unit
Agrees gap until none (u ∷ us) = u + gap ≤ until

Agrees-later :
    (gap until later : ℕ) (o : Option ℕ) (times : List ℕ)
    → until ≤ later
    → Agrees gap until o times
    → Agrees gap later o times
Agrees-later gap until later (some t) [] h a = a
Agrees-later gap until later (some t) (u ∷ us) h a = a
Agrees-later gap until later none [] h a = a
Agrees-later gap until later none (u ∷ us) h a = omega arith

acquire-ttl_ms :
    (s : IdempotencyLock) (event_id : String) (now : ℕ)
    → (acquire s event_id now).0.ttl_ms ≡ s.ttl_ms
unfolding acquire
acquire-ttl_ms s event_id now = ground arith

after-ttl_ms : (s : IdempotencyLock) (ops : List Op) → (after s ops).ttl_ms ≡ s.ttl_ms
unfolding after gc
after-ttl_ms s [] = refl
after-ttl_ms s (acquire_op e now ∷ ops) = acquire-ttl_ms (after s ops) e now ∙ after-ttl_ms s ops
after-ttl_ms s (gc_op now ∷ ops) = after-ttl_ms s ops

acquire-HasDistinctKeys :
    (s : IdempotencyLock) (event_id : String) (now : ℕ)
    → HasDistinctKeys s.locks
    → HasDistinctKeys (acquire s event_id now).0.locks
unfolding acquire
acquire-HasDistinctKeys s e now h = ground (arith, insert-HasDistinctKeys e now s.locks h)

after-HasDistinctKeys : (ttl : ℕ) (ops : List Op) → HasDistinctKeys (after (new_lock ttl) ops).locks
unfolding after gc
after-HasDistinctKeys ttl [] = tt
after-HasDistinctKeys ttl (acquire_op e now ∷ ops) =
    acquire-HasDistinctKeys (after (new_lock ttl) ops) e now (after-HasDistinctKeys ttl ops)
after-HasDistinctKeys ttl (gc_op now ∷ ops) =
    filter_entries-HasDistinctKeys _ (after (new_lock ttl) ops).locks
      (after-HasDistinctKeys ttl ops)

-- One call for the event, as the table and the list of the event's turns see it.
step-Agrees :
    (s : IdempotencyLock) (ttl : ℕ) (event_id e : String) (now : ℕ) (times : List ℕ)
    → s.ttl_ms ≡ ttl
    → str_eq event_id e ≡ true
    → All (λ t. t ≤ now) times
    → AreApart (ttl * 1000) times
    → Agrees (ttl * 1000) now (lookup e s.locks) times
    → All (λ t. t ≤ now) (if (acquire s event_id now).1.acquired then now ∷ times else times)
      × AreApart (ttl * 1000) (if (acquire s event_id now).1.acquired then now ∷ times else times)
      × Agrees
          (ttl * 1000)
          now
          (lookup e (acquire s event_id now).0.locks)
          (if (acquire s event_id now).1.acquired then now ∷ times else times)
unfolding acquire
step-Agrees s ttl event_id e now [] same here u apart agrees =
    ground (arith, eq_iff event_id e, lookup-insert event_id e now s.locks)
step-Agrees s ttl event_id e now (t ∷ ts) same here u apart agrees =
    ground (arith, eq_iff event_id e, lookup-insert event_id e now s.locks)

acquire-other :
    (s : IdempotencyLock) (event_id e : String) (now : ℕ)
    → str_eq event_id e ≡ false
    → lookup e (acquire s event_id now).0.locks ≡ lookup e s.locks
unfolding acquire
acquire-other s event_id e now h = ground (arith, lookup-insert event_id e now s.locks)

All-later :
    (now later : ℕ) (ts : List ℕ) → now ≤ later → All (λ t. t ≤ now) ts → All (λ t. t ≤ later) ts
All-later now later [] h u = tt
All-later now later (t ∷ ts) h u = (omega arith, All-later now later ts h u.1)

gc-Agrees :
    (s : IdempotencyLock) (ttl : ℕ) (e : String) (now : ℕ) (times : List ℕ)
    → s.ttl_ms ≡ ttl
    → HasDistinctKeys s.locks
    → All (λ t. t ≤ now) times
    → Agrees (ttl * 1000) now (lookup e s.locks) times
    → Agrees (ttl * 1000) now (lookup e (gc s now).locks) times
unfolding gc
gc-Agrees s ttl e now [] same distinct u a =
    ground (arith, lookup-filter_entries e (λ t. not (leb (ttl_us s) (now - t))) s.locks distinct)
gc-Agrees s ttl e now (t ∷ ts) same distinct u a =
    ground (arith, lookup-filter_entries e (λ t. not (leb (ttl_us s) (now - t))) s.locks distinct)

module _ (ttl : ℕ) (e : String) where
  abbrev start : IdempotencyLock
  start = new_lock ttl

  abbrev turns : List Op → List ℕ
  turns ops = processed start e ops

  abbrev Sound : ℕ → IdempotencyLock → List ℕ → Type 0
  Sound until s times =
      All (λ t. t ≤ until) times
      × AreApart (ttl * 1000) times
      × Agrees (ttl * 1000) until (lookup e s.locks) times

  Sound-later :
      (now until : ℕ) (s : IdempotencyLock) (times : List ℕ)
      → now ≤ until
      → Sound now s times
      → Sound until s times
  Sound-later now until s times h (old, apart, agrees) =
      (All-later now until times h old, apart, Agrees-later _ now until _ times h agrees)

  acquire-Sound :
      (s : IdempotencyLock) (event_id : String) (now : ℕ) (times : List ℕ)
      → s.ttl_ms ≡ ttl
      → Sound now s times
      → Sound now
          (acquire s event_id now).0
          (if str_eq event_id e && (acquire s event_id now).1.acquired then now ∷ times else times)
  acquire-Sound s event_id now times same (old, apart, agrees) =
      elim (Bool-cases (str_eq event_id e)) [
        | inl here ↦ rw here (step-Agrees s ttl event_id e now times same here old apart agrees)
        | inr other ↦ rw (other, acquire-other s event_id e now other) (old, apart, agrees)
      ]

  turns-Sound :
      (until : ℕ) (ops : List Op)
      → IsChronological ops
      → UpTo until ops
      → Sound until (after start ops) (turns ops)
  unfolding after processed lookup
  turns-Sound until [] ok u = (tt, tt, tt)
  turns-Sound until (gc_op now ∷ ops) ok u =
      let (old, apart, agrees) = turns-Sound now ops ok.1 ok.0 in
      Sound-later now until (gc (after start ops) now) (turns ops) u.0 (
        old,
        apart,
        gc-Agrees (after start ops) ttl e now (turns ops) (after-ttl_ms start ops)
            (after-HasDistinctKeys ttl ops) old agrees,
      )
  turns-Sound until (acquire_op event_id now ∷ ops) ok u =
      Sound-later now until (after start (acquire_op event_id now ∷ ops))
        (turns (acquire_op event_id now ∷ ops)) u.0
        (acquire-Sound (after start ops) event_id now (turns ops) (after-ttl_ms start ops)
          (turns-Sound now ops ok.1 ok.0))

  -- Whatever calls are made, clean-ups among them, an event is let through at times that lie at
  -- least its time to live apart.
  pub processed-AreApart : (ops : List Op) → IsChronological ops → AreApart (ttl * 1000) (turns ops)
  unfolding processed
  processed-AreApart [] ok = tt
  processed-AreApart (op ∷ ops) ok = (turns-Sound (time_of op) (op ∷ ops) ok (omega arith, ok.0)).1
