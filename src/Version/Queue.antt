-- ===== src/Version/Queue.antt =====
-- internal/service/version/refresh_queue.go: the bounded queue of keys to refresh. The channel is the
-- list of its jobs, oldest first, with its capacity.
pub mod Runs
use svm_go.Prelude.{
  ℕ, zero, suc, Bool, true, false, not, ◌&&◌, ◌||◌, List, [], ◌∷◌, ◌++◌, Str, ℤ, pos, negsuc,
  is_empty, length, ltb, if◌then◌else◌,
}

pub record RefreshQueue : Type 0 where
  pub closed : Bool
  pub keys : List Str
  pub size : ℕ

abbrev pub default_refresh_queue_size : ℕ
default_refresh_queue_size = 256

unfoldable pub new_refresh_queue : ℤ → RefreshQueue
new_refresh_queue size = record {
  closed = false;
  keys = [];
  size = elim size [
    | pos zero ↦ default_refresh_queue_size
    | pos (suc n) ↦ suc n
    | negsuc n ↦ default_refresh_queue_size
  ];
}

-- A job is its key.
unfoldable pub enqueue : Str → RefreshQueue → Bool × RefreshQueue
enqueue key q =
    if is_empty key
    then (false, q)
    else if q.closed
    then (false, q)
    else if ltb (length q.keys) q.size
    then (true, record q { keys = q.keys ++ key ∷ [] })
    else (false, q)

-- A job, the end, or a wait until something changes.
pub data Dequeued : Type 0 where
  job : Str → Dequeued
  stopped waiting : Dequeued

-- `select` over the context and the channel. Where both are ready it takes either: `favour_ctx` says
-- which.
unfoldable pub dequeue : Bool → Bool → RefreshQueue → Dequeued × RefreshQueue
dequeue ctx_done favour_ctx q = if ctx_done && favour_ctx then (stopped, q) else elim q.keys [
  | key ∷ rest ↦ (job key, record q { keys = rest })
  | [] ↦ if ctx_done || q.closed then (stopped, q) else (waiting, q)
]

unfoldable pub close : RefreshQueue → RefreshQueue
close q = if q.closed then q else record q { closed = true }
