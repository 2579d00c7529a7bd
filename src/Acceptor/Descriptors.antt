-- ===== src/Acceptor/Descriptors.antt =====
-- Acceptor.cc: what becomes of the descriptors.
use network_lib.Base.{count, ℕ, ◌+◌, ◌≡◌, Option, none, some, List, [], arith}
use network_lib.Channels
use network_lib.Channels.{Epoll}
use network_lib.Acceptor.{
  Acceptor, Accepted, accepted, emfile, other_error, make, push, listen, close_idle, set_idle,
  handle_read, set_new_connection_callback,
}

-- Each descriptor that was opened was closed, handed on, or is the spare one.
abbrev pub Accounted : Acceptor → Type 0
Accounted a =
    (fd : ℕ)
    → count fd a.opened ≡ count fd a.closed + count fd a.handed + count fd (push a.idle_fd [])

-- The steps of an acceptor.
pub data Step : Acceptor → Acceptor → Type 0 where
  listens : {a b : Acceptor} → listen a ≡ some b → Step a b
  hears : {a : Acceptor} → Step a (set_new_connection_callback a)
  reads :
      {a : Acceptor} (x : Accepted) (second reopened : Option ℕ)
      → Step a (handle_read a x second reopened)

pub data Reach (a : Acceptor) : Acceptor → Type 0 where
  here : Reach a a
  next : {b c : Acceptor} → Reach a b → Step b c → Reach a c

count-push :
    (fd : ℕ) (o : Option ℕ) (xs : List ℕ)
    → count fd (push o xs) ≡ count fd (push o []) + count fd xs
count-push fd none xs = omega arith
count-push fd (some x) xs = omega arith

-- Closing the spare descriptor and opening another one keeps the account.
renew-Accounted :
    (a : Acceptor) (got : Option ℕ) → Accounted a → Accounted (set_idle (close_idle a) got)
unfolding set_idle close_idle
renew-Accounted a got h fd =
    omega (arith, h fd, count-push fd got a.opened, count-push fd a.idle_fd a.closed)

handle_read-Accounted :
    (a : Acceptor) (x : Accepted) (second reopened : Option ℕ)
    → Accounted a
    → Accounted (handle_read a x second reopened)
unfolding handle_read
handle_read-Accounted a (accepted connfd) second reopened h fd = ground (arith, h fd)
handle_read-Accounted a emfile second reopened h fd =
    renew-Accounted (set_idle (close_idle a) second) reopened (renew-Accounted a second h) fd
handle_read-Accounted a other_error second reopened h fd = h fd

Step-Accounted : {a b : Acceptor} → Step a b → Accounted a → Accounted b
unfolding listen set_new_connection_callback
Step-Accounted {a} {b} (listens e) h fd = ground (arith, h fd)
Step-Accounted hears h fd = h fd
Step-Accounted {a} (reads x second reopened) h fd = handle_read-Accounted a x second reopened h fd

Reach-Accounted : {a b : Acceptor} → Accounted a → Reach a b → Accounted b
Reach-Accounted h here = h
Reach-Accounted h (next r s) = Step-Accounted s (Reach-Accounted h r)

-- No sequence of steps leaks a descriptor or closes one twice: each that accept or open returned was
-- closed or handed on as often as it was returned, but for the one that is now the spare.
pub Reach-make-Accounted :
    (fd : ℕ) (idle : Option ℕ) (e : Epoll) (a : Acceptor) → Reach (make fd idle e) a → Accounted a
unfolding make Channels.make
Reach-make-Accounted fd idle e a r = Reach-Accounted (λ x. omega arith) r
