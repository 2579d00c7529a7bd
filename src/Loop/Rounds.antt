-- ===== src/Loop/Rounds.antt =====
-- EventLoop.cc: doPendingFunctors.
use network_lib.Base.{
  ℕ, ◌+◌, ◌≡◌, refl, sym, true, false, List, [], ◌∷◌, ◌++◌, append_assoc, append-nil, arith, length,
  length-append,
}
use network_lib.Loop.{EventLoop, queue_in_loop, queue_all, call, call_all, do_pending_functors}

module _ (run : ℕ → List ℕ) where
  -- The functors that the functors of a list queue.
  abbrev pub queued_by : List ℕ → List ℕ
  queued_by [] = []
  queued_by (f ∷ fs) = run f ++ queued_by fs

  -- While the pending functors are called, `l` becomes `m`: these ran, and these were queued.
  record Called (l m : EventLoop) (ran queued : List ℕ) : Type 0 where
    ran_lem : m.ran ≡ l.ran ++ ran
    pending : m.pending_functors ≡ l.pending_functors ++ queued
    calling : m.calling_pending_functors ≡ true
    wakeups : m.wakeups ≡ l.wakeups + length queued

  queue_all-Called :
      (l : EventLoop) (fs : List ℕ)
      → l.calling_pending_functors ≡ true
      → Called l (queue_all run l fs) [] fs
  unfolding queue_all queue_in_loop
  queue_all-Called l [] on = record {
    ran_lem = sym (append-nil l.ran);
    pending = sym (append-nil l.pending_functors);
    calling = on;
    wakeups = omega arith;
  }
  queue_all-Called l (f ∷ fs) on =
      let c = queue_all-Called (queue_in_loop true l f) fs (ground arith) in
      record {
        ran_lem = ground (arith, c.ran_lem);
        pending = ground (arith, c.pending, append_assoc l.pending_functors (f ∷ []) fs);
        calling = c.calling;
        wakeups = ground (arith, c.wakeups);
      }

  call_all-Called :
      (l : EventLoop) (fs : List ℕ)
      → l.calling_pending_functors ≡ true
      → Called l (call_all run l fs) fs (queued_by fs)
  unfolding call_all call
  call_all-Called l [] on = record {
    ran_lem = sym (append-nil l.ran);
    pending = sym (append-nil l.pending_functors);
    calling = on;
    wakeups = omega arith;
  }
  call_all-Called l (f ∷ fs) on =
      let q = queue_all-Called (record l { ran = l.ran ++ f ∷ [] }) (run f) on in
      let c = call_all-Called (call run l f) fs q.calling in
      record {
        ran_lem = ground (
          arith,
          c.ran_lem,
          q.ran_lem,
          append-nil (l.ran ++ f ∷ []),
          append_assoc l.ran (f ∷ []) fs,
        );
        pending =
            ground
              (arith, c.pending, q.pending, append_assoc l.pending_functors (run f) (queued_by fs));
        calling = c.calling;
        wakeups = omega (arith, c.wakeups, q.wakeups, length-append (run f) (queued_by fs));
      }

  -- `doPendingFunctors` runs each functor that was pending, once and in the order in which they were
  -- queued. What these queue in turn waits for the next round, in order, and the eventfd's counter is
  -- raised once for each.
  pub do_pending_functors_lem :
      (l : EventLoop)
      → let m = do_pending_functors run l in
        (m.ran ≡ l.ran ++ l.pending_functors)
        × (m.pending_functors ≡ queued_by l.pending_functors)
        × (m.calling_pending_functors ≡ false)
        × (m.wakeups ≡ l.wakeups + length (queued_by l.pending_functors))
  unfolding do_pending_functors
  do_pending_functors_lem l =
      let swapped : EventLoop = record l {
        calling_pending_functors = true;
        pending_functors = [];
      } in
      let c = call_all-Called swapped l.pending_functors refl in
      (c.ran_lem, c.pending, refl, c.wakeups)
