-- ===== src/EventLoopThread/Handover.antt =====
-- EventLoopThread.cc: how the loop goes from one thread to the other, in all interleavings.
use network_lib.Base.{ℕ, ◌≡◌, ◌≢◌, refl, Bool, Option, none, some, arith, if◌then◌else◌}
use network_lib.EventLoopThread.{
  Starter, outside, testing, asleep, returned, Worker, absent, initialising, initialised, running,
  finished, EventLoopThread, make, start_loop, test, initialise, publish, destroy,
}

-- The steps of the two threads. A sleeping starter may also wake by itself.
pub data Step : EventLoopThread → EventLoopThread → Type 0 where
  starts : {t u : EventLoopThread} (l : ℕ) → start_loop t l ≡ some u → Step t u
  tests : {t : EventLoopThread} → t.starter ≡ testing → Step t (test t)
  stirs : {t : EventLoopThread} → t.starter ≡ asleep → Step t (record t { starter = testing })
  initialises : {t : EventLoopThread} (l : ℕ) → t.worker ≡ initialising l → Step t (initialise t l)
  publishes : {t : EventLoopThread} (l : ℕ) → t.worker ≡ initialised l → Step t (publish t l)
  ends :
      {t : EventLoopThread} (l : ℕ)
      → t.worker ≡ running l
      → Step t (record t { worker = finished l })
  destroys : {t u : EventLoopThread} → destroy t ≡ some u → Step t u

pub data Reach (t : EventLoopThread) : EventLoopThread → Type 0 where
  here : Reach t t
  next : {u v : EventLoopThread} → Reach t u → Step u v → Reach t v

-- What the worker has done by now: nothing was published before the callback was called, once.
abbrev pub Published : EventLoopThread → Worker → Type 0
Published t absent = (t.loop ≡ none) × (t.called ≡ 0) × (t.starter ≡ outside)
Published t (initialising l) = (t.loop ≡ none) × (t.called ≡ 0)
Published t (initialised l) = (t.loop ≡ none) × (t.called ≡ (if t.has_callback then 1 else 0))
Published t (running l) = (t.loop ≡ some l) × (t.called ≡ (if t.has_callback then 1 else 0))
Published t (finished l) = (t.loop ≡ some l) × (t.called ≡ (if t.has_callback then 1 else 0))

-- The starter sleeps only while there is no loop, and returns only with the loop that there is.
abbrev pub Agrees : Option ℕ → Starter → Type 0
Agrees loop outside = Unit {0}
Agrees loop testing = Unit {0}
Agrees loop asleep = loop ≡ none
Agrees loop (returned l) = loop ≡ some l

pub record IsSound (t : EventLoopThread) : Type 0 where
  pub published : Published t t.worker
  pub agrees : Agrees t.loop t.starter

Step-IsSound : {t u : EventLoopThread} → Step t u → IsSound t → IsSound u
unfolding start_loop test initialise publish destroy
Step-IsSound {t} {u} (starts l h) s = record {
  published = ground (arith, s.published, s.agrees);
  agrees = ground (arith, s.published, s.agrees);
}
Step-IsSound {t} (tests h) s = record {
  published = ground (arith, s.published, s.agrees);
  agrees = ground (arith, s.published, s.agrees);
}
Step-IsSound {t} (stirs h) s = record {
  published = ground (arith, s.published, s.agrees);
  agrees = ground (arith, s.published, s.agrees);
}
Step-IsSound {t} (initialises l h) s = record {
  published = ground (arith, s.published, s.agrees);
  agrees = ground (arith, s.published, s.agrees);
}
Step-IsSound {t} (publishes l h) s = record {
  published = ground (arith, s.published, s.agrees);
  agrees = ground (arith, s.published, s.agrees);
}
Step-IsSound {t} (ends l h) s = record {
  published = ground (arith, s.published, s.agrees);
  agrees = ground (arith, s.published, s.agrees);
}
Step-IsSound {t} {u} (destroys h) s = record {
  published = ground (arith, s.published, s.agrees);
  agrees = ground (arith, s.published, s.agrees);
}

make-IsSound : (has_callback : Bool) → IsSound (make has_callback)
unfolding make
make-IsSound has_callback = record { published = (refl, refl, refl); agrees = tt }

Reach-IsSound : {t u : EventLoopThread} → IsSound t → Reach t u → IsSound u
Reach-IsSound s here = s
Reach-IsSound s (next r step) = Step-IsSound step (Reach-IsSound s r)

-- However the two threads are interleaved, startLoop returns the loop that was published, for which
-- the callback, if there is one, has run just once; and it does not sleep once there is a loop.
pub Reach-make-returned :
    (has_callback : Bool) (t : EventLoopThread) (l : ℕ)
    → Reach (make has_callback) t
    → (t.starter ≡ returned l → (t.loop ≡ some l) × (t.called ≡ (if t.has_callback then 1 else 0)))
      × (t.loop ≡ some l → t.starter ≢ asleep)
Reach-make-returned has_callback t l r =
    let s = Reach-IsSound (make-IsSound has_callback) r in
    (λ e. ground (arith, s.published, s.agrees), λ e k. ground (arith, s.agrees))
