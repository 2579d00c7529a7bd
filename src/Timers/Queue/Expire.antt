-- ===== src/Timers/Queue/Expire.antt =====
-- TimerQueue.cc: getExpired.
use network_lib.Base.{
  ℕ, zero, suc, ◌<◌, ◌≤◌, ◌≡◌, refl, sym, ap, ◌∙◌, Bool, false, Option, none, some, List, [], ◌∷◌,
  ◌++◌, arith, length, if◌then◌else◌, leb, Bool-cases, inl, inr, append_assoc, append-nil,
  Option-cases, ◌⊎◌, leb→le, get_or,
}
use network_lib.Timers.{HeapEntry, TimerQueue}
use network_lib.Timers.Heap.Swap.{key, entry_at, null_entry}
use network_lib.Timers.Queue.{expire_loop, get_expired, contains}
use network_lib.Timers.Queue.Active.{
  active, IsSound, active-timer_at, key_root-le-active, details?, active_entry,
}
use network_lib.Timers.Queue.Remove.{Removed, remove_timer-Removed}

-- Whether a deadline has come.
abbrev pub is_due : ℕ → Option ℕ → Bool
is_due now none = false
is_due now (some d) = leb d now

-- The listed timers are active, and their deadlines rise from `lo` on.
abbrev pub Ascending : TimerQueue → ℕ → List ℕ → Type 0
Ascending q lo [] = Unit {0}
Ascending q lo (p ∷ ps) = (d : ℕ) × (active q p ≡ some d) × (lo ≤ d) × Ascending q d ps

Ascending-mono :
    (q r : TimerQueue) (lo : ℕ) (ps : List ℕ)
    → ((j d : ℕ) → active r j ≡ some d → active q j ≡ some d)
    → Ascending r lo ps
    → Ascending q lo ps
Ascending-mono q r lo [] h a = tt
Ascending-mono q r lo (p ∷ ps) h (d, e, k, rest) = (d, h p d e, k, Ascending-mono q r d ps h rest)

abbrev pub Distinct : List ℕ → Type 0
Distinct [] = Unit {0}
Distinct (p ∷ ps) = (contains ps p ≡ false) × Distinct ps

-- `expired` are the timers of `q` that are due, and `r` is the queue without them.
pub record Expired (q : TimerQueue) (now : ℕ) (expired : List ℕ) (r : TimerQueue) : Type 0 where
  pub sound : IsSound r
  pub due : (j : ℕ) → contains expired j ≡ is_due now (active q j)
  pub left : (j : ℕ) → active r j ≡ (if is_due now (active q j) then none else active q j)
  pub distinct : Distinct expired
  pub ascending : (lo : ℕ) → ((j d : ℕ) → active q j ≡ some d → lo ≤ d) → Ascending q lo expired
  pub details : (j : ℕ) → details? (r.timers j) ≡ details? (q.timers j)
  pub calling : r.calling_expired_timers ≡ q.calling_expired_timers
  pub canceling : r.canceling_timers ≡ q.canceling_timers
  pub armed : r.armed ≡ q.armed

-- No timer is due once the first entry is not.
none_due :
    (q : TimerQueue) (now : ℕ)
    → IsSound q
    → (0 < length q.heap → now < key q 0)
    → (j : ℕ) → is_due now (active q j) ≡ false
none_due q now s h j = elim (Option-cases (active q j)) [
  | inl e ↦ rw e
  | inr (d, e) ↦
      let (i, inside, at, k) = active_entry q j d s e in
      ground (arith, e, key_root-le-active q j d s e, h (omega arith))
]

Expired-nil :
    (q : TimerQueue) (now : ℕ)
    → IsSound q
    → (0 < length q.heap → now < key q 0)
    → Expired q now [] q
unfolding contains
Expired-nil q now s h = record {
  sound = s;
  due = λ j. sym (none_due q now s h j);
  left = λ j. rw (none_due q now s h j);
  distinct = tt;
  ascending = λ lo k. tt;
  details = λ j. refl;
  calling = refl;
  canceling = refl;
  armed = refl;
}

Expired-cons :
    (q r u : TimerQueue) (now p d : ℕ) (ps : List ℕ)
    → IsSound q
    → active q p ≡ some d
    → d ≤ now
    → ((j x : ℕ) → active q j ≡ some x → d ≤ x)
    → Removed q p r
    → Expired r now ps u
    → Expired q now (p ∷ ps) u
unfolding contains
Expired-cons q r u now p d ps s a due least m x = record {
  sound = x.sound;
  due = λ j. ground (arith, x.due j, m.deadlines j, a);
  left = λ j. ground (arith, x.left j, m.deadlines j, a);
  distinct = (ground (arith, x.due p, m.deadlines p), x.distinct);
  ascending = λ lo h. (
    d,
    a,
    h p d a,
    Ascending-mono q r d ps (λ j y e. ground (arith, m.deadlines j))
        (x.ascending d (λ j y e. least j y (ground (arith, m.deadlines j)))),
  );
  details = λ j. x.details j ∙ m.details j;
  calling = x.calling ∙ m.calling;
  canceling = x.canceling ∙ m.canceling;
  armed = x.armed ∙ m.armed;
}

-- The entry that the loop looks at.
first_entry :
    (q : TimerQueue) (e : HeapEntry) (es : List HeapEntry) → q.heap ≡ e ∷ es → entry_at q 0 ≡ e
first_entry q e es h = ap (λ xs. get_or xs 0 null_entry) h

List-cases :
    (es : List HeapEntry)
    → (es ≡ []) ⊎ ((e : HeapEntry) × (rest : List HeapEntry) × (es ≡ e ∷ rest))
List-cases [] = inl refl
List-cases (e ∷ rest) = inr (e, rest, refl)

expire_loop-Expired :
    (k : ℕ) (q : TimerQueue) (now : ℕ) (acc : List ℕ)
    → length q.heap < k
    → IsSound q
    → (out : List ℕ) × (r : TimerQueue) × (expire_loop k q now acc ≡ some (acc ++ out, r))
      × Expired q now out r
unfolding expire_loop
expire_loop-Expired zero q now acc f s = absurd (omega arith)
expire_loop-Expired (suc k) q now acc f s = elim (List-cases q.heap) [
  | inl empty ↦ (
    [],
    q,
    ground (arith, append-nil acc),
    Expired-nil q now s (λ h. absurd (omega (arith, ap length empty))),
  )
  | inr (e, es, full) ↦
      let here = first_entry q e es full in
      let some_there : 0 < length q.heap = omega (arith, ap length full) in
      elim (Bool-cases (leb e.expiration_time now)) [
        | inr later ↦
            ([], q, ground (arith, append-nil acc), Expired-nil q now s (λ h. ground (arith, here)))
        | inl due ↦
            let a : active q e.timer ≡ some e.expiration_time =
              ground (arith, here, active-timer_at q 0 s some_there) in
            let (r, f', m) = remove_timer-Removed q e.timer e.expiration_time s a in
            let (out, u, g, x) =
              expire_loop-Expired k r now (acc ++ e.timer ∷ []) (omega (arith, m.size)) m.sound in
            (
              e.timer ∷ out,
              u,
              ground (arith, f', g, append_assoc acc (e.timer ∷ []) out),
              Expired-cons q r u now e.timer e.expiration_time out s a (leb→le _ _ due)
                  (λ j y z. ground (arith, here, key_root-le-active q j y s z)) m x,
            )
      ]
]

-- On a queue in order and linked `getExpired` ends. It takes off the heap exactly the timers whose
-- expiration is not after `now`, returns each of them once, in the order of their expirations, and
-- leaves the others active.
pub get_expired-Expired :
    (q : TimerQueue) (now : ℕ)
    → IsSound q
    → (expired : List ℕ) × (r : TimerQueue) × (get_expired q now ≡ some (expired, r))
      × Expired q now expired r
unfolding get_expired
get_expired-Expired q now s = expire_loop-Expired (suc (length q.heap)) q now [] (omega arith) s
