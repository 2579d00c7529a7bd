-- ===== src/Loop/Wakeup.antt =====
-- EventLoop.cc: the rounds of `loop`, with other threads queueing functors at any time.
use network_lib.Base.{ℕ, ◌<◌, ◌≡◌, ◌≢◌, Bool, true, false, List, [], ◌∷◌, ◌++◌}
use network_lib.Loop.{EventLoop, make, queue_in_loop, quit_loop, handle_read}

-- Where the loop's thread is: before its call of `loop`, in epoll_wait, handling the events, or calling
-- the functors of its local vector `fns` that are left.
pub data Phase : Type 0 where
  starting polling handling : Phase
  calling : List ℕ → Phase

-- `early` notes the functors that the loop's own thread has queued before it called `loop`, until they
-- are taken out of the queue.
pub record Running : Type 0 where
  pub loop : EventLoop
  pub phase : Phase
  pub early : List ℕ

-- The steps of the loop's thread, in the order of its round, and those of the others. epoll_wait may
-- return for the eventfd or for other descriptors. Before `loop` the thread may queue functors too, as
-- a thread callback or the owner of the loop does, and `loop` does not poll if `quit` was called.
pub data Step : Running → Running → Type 0 where
  queues_early :
      {r : Running} (f : ℕ)
      → r.phase ≡ starting
      → Step r (record r { loop = queue_in_loop true r.loop f; early = r.early ++ f ∷ [] })
  enters :
      {r : Running}
      → r.phase ≡ starting
      → r.loop.quit ≡ false
      → Step r (record r { phase = polling })
  wakes : {r : Running} → r.phase ≡ polling → Step r (record r { phase = handling })
  reads : {r : Running} → r.phase ≡ handling → Step r (record r { loop = handle_read r.loop })
  queues_in_loop :
      {r : Running} (f : ℕ)
      → r.phase ≢ polling
      → r.phase ≢ starting
      → Step r (record r { loop = queue_in_loop true r.loop f })
  swaps :
      {r : Running}
      → r.phase ≡ handling
      → Step r (record {
        loop = record (r.loop) { calling_pending_functors = true; pending_functors = [] };
        phase = calling r.loop.pending_functors;
        early = [];
      })
  calls :
      {r : Running} (f : ℕ) (fs : List ℕ)
      → r.phase ≡ calling (f ∷ fs)
      → Step r
          (record r { loop = record (r.loop) { ran = r.loop.ran ++ f ∷ [] }; phase = calling fs })
  ends :
      {r : Running}
      → r.phase ≡ calling []
      → r.loop.quit ≡ false
      → Step r (record r {
        loop = record (r.loop) { calling_pending_functors = false };
        phase = polling;
      })
  queues : {r : Running} (f : ℕ) → Step r (record r { loop = queue_in_loop false r.loop f })
  quits :
      {r : Running} (here : Bool)
      → (here ≡ true → r.phase ≢ polling)
      → Step r (record r { loop = quit_loop here r.loop })

pub data Reach (r : Running) : Running → Type 0 where
  here : Reach r r
  next : {s t : Running} → Reach r s → Step s t → Reach r t

-- A new loop
abbrev pub created : Running
created = record { loop = make; phase = starting; early = [] }

-- Outside the handling of events, what is pending beyond the early functors has raised the eventfd's
-- counter; in epoll_wait, so has a request to quit. No early functor is left while others are called.
pub record IsAwake (r : Running) : Type 0 where
  pub started :
      r.phase ≡ starting
      → (r.loop.calling_pending_functors ≡ false)
        × (r.loop.pending_functors ≢ r.early → 0 < r.loop.wakeups)
  pub polled :
      r.phase ≡ polling
      → (r.loop.calling_pending_functors ≡ false)
        × (r.loop.pending_functors ≢ r.early → 0 < r.loop.wakeups)
        × (r.loop.quit ≡ true → 0 < r.loop.wakeups)
  pub handled : r.phase ≡ handling → r.loop.calling_pending_functors ≡ false
  pub called :
      (fs : List ℕ)
      → r.phase ≡ calling fs
      → (r.loop.calling_pending_functors ≡ true)
        × (r.early ≡ [])
        × (r.loop.pending_functors ≢ [] → 0 < r.loop.wakeups)
