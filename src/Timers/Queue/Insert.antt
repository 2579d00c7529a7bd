-- ===== src/Timers/Queue/Insert.antt =====
-- TimerQueue.cc: insert.
use network_lib.Base.{
  Bool-cases, inl, inr, ==_iff, ◌↔◌, ℕ, suc, ◌-◌, ◌<◌, ◌≡◌, refl, ◌∙◌, Bool, true, none, some, List,
  [], ◌∷◌, ◌++◌, arith, length, length-append, get_or, get_or-append_le, get_or-append_end, update,
  ◌==◌, if◌then◌else◌, ltb,
}
use network_lib.Timers.{Timer, HeapEntry, TimerQueue}
use network_lib.Timers.Heap.{up_heap, parent}
use network_lib.Timers.Heap.Swap.{
  PointsBack, Linked, Reordered, timer_at, key, entry_at, null_entry,
}
use network_lib.Timers.Heap.Up.{UpReady, up_heap-Sifts}
use network_lib.Timers.Queue.{insert, earlier_than_first}
use network_lib.Timers.Queue.Active.{
  active, Reordered-active, IsSound, active_entry, key_root-le-active, active-timer_at,
}

-- The queue with a new last entry, before it is sifted up.
abbrev pub pushed : TimerQueue → ℕ → Timer → TimerQueue
pushed q p t = record q {
  heap = q.heap ++ (record { expiration_time = t.expiration; timer = p }) ∷ [];
  timers = update q.timers p (some (record t { heap_index = some (length q.heap) }));
}

module _ (q : TimerQueue) (p : ℕ) (t : Timer) (s : IsSound q) (alive : q.timers p ≡ some t)
    (idle : t.heap_index ≡ none) where
  abbrev entry : HeapEntry
  entry = record { expiration_time = t.expiration; timer = p }

  abbrev new : TimerQueue
  new = pushed q p t

  size : length new.heap ≡ suc (length q.heap)
  size = omega (arith, length-append q.heap (entry ∷ []))

  entry_at-pushed : (c : ℕ) → c < length q.heap → entry_at new c ≡ entry_at q c
  entry_at-pushed c h = get_or-append_le q.heap (entry ∷ []) c null_entry h

  entry_at-pushed_end : entry_at new (length q.heap) ≡ entry
  entry_at-pushed_end = get_or-append_end q.heap entry (length q.heap) null_entry refl

  pushed-forward : (c : ℕ) → c < length new.heap → PointsBack new c
  pushed-forward c h = elim (Bool-cases (c == length q.heap)) [
    | inl last ↦
        let e : c ≡ length q.heap = (==_iff c (length q.heap)).0 last in
        (
          record t { heap_index = some (length q.heap) },
          ground (arith, entry_at-pushed_end),
          ground arith,
          ground (arith, entry_at-pushed_end),
        )
    | inr before ↦
        let lt : c < length q.heap = ground (arith, size) in
        let (u, e, m, k) = s.linked.forward c lt in
        (u, ground (arith, entry_at-pushed c lt), m, ground (arith, entry_at-pushed c lt))
  ]

  pushed-backward :
      (x c : ℕ) (u : Timer)
      → new.timers x ≡ some u
      → u.heap_index ≡ some c
      → (c < length new.heap) × (timer_at new c ≡ x)
  pushed-backward x c u e m = elim (Bool-cases (x == p)) [
    | inl new ↦ (ground (arith, size), ground (arith, entry_at-pushed_end))
    | inr old ↦
        let before : q.timers x ≡ some u = ground arith in
        let (h, k) = s.linked.backward x c u (λ z. cc) before m in
        (omega (arith, size), ground (arith, entry_at-pushed c h))
  ]

  pushed-UpReady : UpReady new (length q.heap)
  pushed-UpReady = record {
    inside = omega (arith, size);
    edges = λ c z h ne. ground (
      arith,
      size,
      entry_at-pushed c,
      entry_at-pushed (parent c),
      s.ordered c z (omega (arith, size)),
    );
    bridge = λ c z h e y. absurd (omega (arith, size));
  }

  pushed-Linked : Linked none new
  pushed-Linked = record {
    forward = pushed-forward;
    backward = λ x c u n. pushed-backward x c u;
    absent = λ c h e. cc;
  }

  active-pushed : (j : ℕ) → active new j ≡ (if j == p then some t.expiration else active q j)
  active-pushed j = ground arith

  -- The up-sift of the entry just pushed.
  insert-sifted :
      (r : TimerQueue)
      → up_heap new (length q.heap) ≡ some r
      → insert q p ≡ some (earlier_than_first q.heap t.expiration, r)
  unfolding insert
  insert-sifted r e =
      let last : length new.heap - 1 ≡ length q.heap = omega (arith, size) in
      rw (alive) (ground (arith, e, last))

earlier_than_first_lem :
    (es : List HeapEntry) (when : ℕ)
    → earlier_than_first es when
      ≡ (if length es == 0 then true else ltb when (get_or es 0 null_entry).expiration_time)
unfolding earlier_than_first
earlier_than_first_lem [] when = refl
earlier_than_first_lem (e ∷ es) when = ground arith

-- A time comes before the first entry's exactly when it comes before every active timer's.
earlier_than_first_iff :
    (q : TimerQueue) (when : ℕ)
    → IsSound q
    → (earlier_than_first q.heap when ≡ true) ↔ ((p d : ℕ) → active q p ≡ some d → when < d)
earlier_than_first_iff q when s = (
  λ h p d a.
      let (i, inside, at, k) = active_entry q p d s a in
      ground (arith, first, key_root-le-active q p d s a),
  λ all. elim (Bool-cases (length q.heap == 0)) [
    | inl none_yet ↦ ground (arith, first)
    | inr some_there ↦
        let h : 0 < length q.heap = ground arith in
        ground (arith, first, all (timer_at q 0) (key q 0) (active-timer_at q 0 s h))
  ],
)
  where
    first :
        earlier_than_first q.heap when ≡ (if length q.heap == 0 then true else ltb when (key q 0))
    first = earlier_than_first_lem q.heap when

-- `insert` of a timer that is alive and not in the heap succeeds: the timer becomes active at its
-- expiration, no other one changes, and the heap stays in order and linked.
pub insert-active :
    (q : TimerQueue) (p : ℕ) (t : Timer)
    → IsSound q
    → q.timers p ≡ some t
    → t.heap_index ≡ none
    → (changed : Bool) × (r : TimerQueue) × (insert q p ≡ some (changed, r))
      × IsSound r
      × ((j : ℕ) → active r j ≡ (if j == p then some t.expiration else active q j))
      × (changed ≡ earlier_than_first q.heap t.expiration)
      × Reordered (pushed q p t) r
insert-active q p t s alive idle =
    let (r, e, h, l, same) =
      up_heap-Sifts none (pushed q p t) (length q.heap) (pushed-Linked q p t s alive idle)
        (pushed-UpReady q p t s alive idle) in
    (
      earlier_than_first q.heap t.expiration,
      r,
      insert-sifted q p t s alive idle r e,
      record { ordered = h; linked = l },
      λ j. Reordered-active same j ∙ active-pushed q p t s alive idle j,
      refl,
      same,
    )
