-- ===== src/Tests/Concrete.antt =====
-- Stand-ins for what the program takes from elsewhere: an epoll instance that keeps the interest
-- of each descriptor, a queue that is a list, and a poller with events of every kind.
use libarc.Prelude.{
  ℕ, refl, true, Option, none, some, List, [], ◌∷◌, ◌++◌, if◌then◌else◌, ◌==◌, length-append,
  length-drop, drop, take, take-append-drop, length-take, sym, ap, ◌∙◌, update, count, count-append,
  arith,
}
use libarc.Poller.Kernel.{CtlOp, Epoll, EpollLaws}
use libarc.Dispatcher.Queue.{ConcurrentQueue, QueueLaws, handle}

abbrev ctl : (ℕ → ℕ) → CtlOp → ℕ → ℕ → Option (ℕ → ℕ)
ctl k CtlOp.add fd events = if k fd == 0 then some (update k fd events) else none
ctl k CtlOp.mod_ fd events = if k fd == 0 then none else some (update k fd events)
ctl k CtlOp.del fd events = if k fd == 0 then none else some (update k fd 0)

abbrev pub kernel : Epoll
kernel = record { Kernel = ℕ → ℕ; epoll_ctl = ctl; interest = λ k fd. k fd; can_poll = λ fd. true }

abbrev pub nothing_watched : ℕ → ℕ
nothing_watched fd = 0

pub kernel_laws : EpollLaws kernel
kernel_laws = record {
  add_ok = λ k fd events can free some_events. (update k fd events, ground arith, λ j. refl);
  mod_ok = λ k fd events can used some_events. (update k fd events, ground arith, λ j. refl);
  del_ok = λ k fd events can used. (update k fd 0, ground arith, λ j. refl);
}

abbrev pub listed : ConcurrentQueue
listed = record {
  Queue = List ℕ;
  contents = λ q. q;
  new_queue = [];
  try_enqueue = λ q h. (q ++ h ∷ [], true);
  try_enqueue_bulk = λ q hs. (q ++ hs, true);
  try_dequeue_bulk = λ q n. (drop n q, take n q);
}

pub listed_laws : QueueLaws listed
listed_laws = record {
  new_empty = refl;
  enqueued = λ q h. (length-append q (h ∷ []), λ i. count-append handle i q (h ∷ []));
  enqueued_bulk = λ q hs. (length-append q hs, λ i. count-append handle i q hs);
  dequeued = λ q n.
      let whole = take-append-drop n q in
      let few = length-take n q in
      (
        omega (arith, few),
        omega (arith, few, length-drop n q),
        λ i. ap (count handle i) (sym whole) ∙ count-append handle i (take n q) (drop n q),
        λ some_wanted some_in. omega (arith, few),
      );
}
