-- ===== src/Version/Queue/Runs.antt =====
-- The refresh queue of internal/service/version/refresh_queue.go over sequences of its operations.
use svm_go.Prelude.{
  append_assoc, ℤ, ◌≤◌, ◌≡◌, ◌↔◌, refl, ◌∙◌, Bool, true, false, List, [], ◌∷◌, ◌++◌, Str, length,
  length-append, arith, if◌then◌else◌,
}
use svm_go.Version.Queue.{
  RefreshQueue, new_refresh_queue, enqueue, Dequeued, job, stopped, waiting, dequeue, close,
}

pub data Operation : Type 0 where
  enqueue_of : Str → Operation
  dequeue_of : (ctx_done favour_ctx : Bool) → Operation
  close_of : Operation

-- The queue with what went in and what came out, oldest first.
pub record History : Type 0 where
  pub queue : RefreshQueue
  pub sent : List Str
  pub received : List Str

abbrev received_of : Dequeued → List Str
received_of (job key) = key ∷ []
received_of stopped = []
received_of waiting = []

abbrev pub perform : Operation → History → History
perform (enqueue_of key) h =
    let (taken, q) = enqueue key h.queue in
    record h { queue = q; sent = if taken then h.sent ++ key ∷ [] else h.sent }
perform (dequeue_of ctx_done favour_ctx) h =
    let (got, q) = dequeue ctx_done favour_ctx h.queue in
    record h { queue = q; received = h.received ++ received_of got }
perform close_of h = record h { queue = close h.queue }

abbrev pub perform_all : List Operation → History → History
perform_all [] h = h
perform_all (o ∷ os) h = perform_all os (perform o h)

-- What was sent is what was received and then what waits, in order, within the bound.
record InOrder (h : History) : Type 0 where
  pub order : h.sent ≡ h.received ++ h.queue.keys
  pub bounded : length h.queue.keys ≤ h.queue.size

perform-InOrder : (o : Operation) (h : History) → InOrder h → InOrder (perform o h)
unfolding enqueue dequeue close
perform-InOrder (enqueue_of key) h i = record {
  order = ground (arith, i.order, append_assoc h.received h.queue.keys (key ∷ []));
  bounded = ground (arith, i.bounded, length-append h.queue.keys (key ∷ []));
}
perform-InOrder (dequeue_of c f) h i = go h.queue.keys refl
  where
    go : (l : List Str) → h.queue.keys ≡ l → InOrder (perform (dequeue_of c f) h)
    go [] e = record {
      order = ground (arith, i.order, e, append_assoc h.received [] []);
      bounded = ground (arith, i.bounded, e);
    }
    go (key ∷ rest) e = record {
      order = ground (
        arith,
        i.order,
        e,
        append_assoc h.received [] (key ∷ rest),
        append_assoc h.received (key ∷ []) rest,
      );
      bounded = ground (arith, i.bounded, e);
    }
perform-InOrder close_of h i = record {
  order = ground (arith, i.order);
  bounded = ground (arith, i.bounded);
}

perform_all-InOrder : (os : List Operation) (h : History) → InOrder h → InOrder (perform_all os h)
perform_all-InOrder [] h i = i
perform_all-InOrder (o ∷ os) h i = perform_all-InOrder os (perform o h) (perform-InOrder o h i)

-- A history that starts with a new queue.
abbrev pub new_history : ℤ → History
new_history size = record { queue = new_refresh_queue size; sent = []; received = [] }

new_history-InOrder : (size : ℤ) → InOrder (new_history size)
unfolding new_refresh_queue
new_history-InOrder size = record { order = refl; bounded = omega arith }

-- Whatever is done with a new queue, its keys come out in the order in which they were taken in, each
-- once: what was taken in is what came out followed by what waits. No more keys wait than the size.
pub perform_all-order :
    (size : ℤ) (os : List Operation)
    → let h = perform_all os (new_history size) in
      (h.sent ≡ h.received ++ h.queue.keys) × (length h.queue.keys ≤ h.queue.size)
perform_all-order size os =
    let i = perform_all-InOrder os (new_history size) (new_history-InOrder size) in
    (i.order, i.bounded)

-- Once closed, the queue takes nothing more, and it stays closed.
perform-closed :
    (o : Operation) (h : History)
    → h.queue.closed ≡ true
    → ((perform o h).queue.closed ≡ true) × ((perform o h).sent ≡ h.sent)
unfolding enqueue dequeue close
perform-closed (enqueue_of key) h c = (ground (arith, c), ground (arith, c))
perform-closed (dequeue_of a f) h c = (ground (arith, c), refl)
perform-closed close_of h c = (ground (arith, c), refl)

closed_for_good :
    (os : List Operation) (h : History)
    → h.queue.closed ≡ true
    → ((perform_all os h).queue.closed ≡ true) × ((perform_all os h).sent ≡ h.sent)
closed_for_good [] h c = (c, refl)
closed_for_good (o ∷ os) h c =
    let (still, same) = perform-closed o h c in
    let (last, all) = closed_for_good os (perform o h) still in (last, all ∙ same)

-- A closed queue takes in no key any more, whatever is done with it; and while a context is not done
-- it gives the end exactly when no key waits any more, so every key that it had is given out first.
pub closed-drains :
    (os : List Operation) (h : History)
    → h.queue.closed ≡ true
    → ((perform_all os h).sent ≡ h.sent)
      × (((dequeue false false (perform_all os h).queue).0 ≡ stopped)
          ↔ ((perform_all os h).queue.keys ≡ []))
unfolding dequeue
closed-drains os h c = let (still, same) = closed_for_good os h c in (same, ground (arith, still))
