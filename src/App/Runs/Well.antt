-- ===== src/App/Runs/Well.antt =====
-- What is well in a state of the whole program of cmd/svm/main.go, and that its workers keep it so.
use svm_go.Prelude.{
  is_empty, not, if◌then◌else◌, true, false, ℕ, ◌≤◌, ◌≡◌, refl, Bool, Option, none, some, List, [],
  ◌∷◌, ◌++◌, length-append, suc, zero, Option-cases, Str, length, arith, Bool-cases, inl, inr,
}
use mathlib.Core.Path.{ap, subst}
use svm_go.App.Clients.{Net}
use svm_go.App.Runs.{Shared, take_job, begin_refresh, end_refresh, split_at}
use svm_go.App.Runs.Within.{IsWithin, store_kept}
use svm_go.App.Server.{App, Runtime, service_of}
use svm_go.App.Server.Started.{IsSteady}
use svm_go.Http.{HttpResponse}
use svm_go.Http.Service.{Encoder}
use svm_go.Platform.{Platform}
use svm_go.Version.Groups.Background
use svm_go.Version.Groups.Background.{
  Running, Reachable, admitted, refused, ended, initial, occurrences, Reachable-once,
}
use svm_go.Version.Groups.{admit}
use svm_go.Version.Keeps.{refresh_once_by_key-kept}
use svm_go.Version.Queue.{Dequeued, job, stopped, waiting}
use svm_go.Version.Store.Memory.{memory_store}
use svm_go.Version.World.{Outside}

-- The cache is within its budget, the queue holds no more than its size, no more refreshes go on than
-- there are workers, the refresh group knows which, the access log is sound and nothing has panicked.
pub record IsWell (budget workers : ℕ) (s : Shared) : Type 0 where
  pub store : IsWithin budget s.running.world.store
  pub queue : length s.queue.keys ≤ s.queue.size
  pub pool : length s.refreshing ≤ workers
  pub group : Reachable (record { group = s.refresh_group; running = s.refreshing })
  pub steady : IsSteady s.running

append-split_at :
    (n : ℕ) (l before after : List Str) (x : Str)
    → split_at n l ≡ some (before, x, after)
    → l ≡ before ++ x ∷ after
append-split_at n [] before after x e = absurd (cc e)
append-split_at zero (y ∷ l) before after x e = cc e
append-split_at (suc n) (y ∷ l) before after x e = elim (Option-cases (split_at n l)) [
  | inl k ↦ absurd (cc (rw k at e))
  | inr ((b, z, a), k) ↦
      let found : some (y ∷ b, z, a) ≡ some (before, x, after) = rw k at e in
      let same : (y ∷ b, z, a) ≡ (before, x, after) = cc found in
      subst (λ (t : List Str × Str × List Str). y ∷ l ≡ t.0 ++ t.1 ∷ t.2) same
        (ap (λ r. y ∷ r) (append-split_at n l b a z k))
]

module _ (pl : Platform) (net : Net) (enc : Encoder) (not_found : HttpResponse → HttpResponse)
    (app : App) (budget workers : ℕ) where
  either_IsWell :
      (b : Bool) (s t : Shared)
      → IsWell budget workers s
      → IsWell budget workers t
      → IsWell budget workers (if b then s else t)
  either_IsWell true s t ws wt = ws
  either_IsWell false s t ws wt = wt

  begin_refresh-IsWell :
      (runtime : Runtime) (key : Str) (s : Shared)
      → suc (length s.refreshing) ≤ workers
      → IsWell budget workers s
      → IsWell budget workers (begin_refresh pl net enc not_found app runtime key s)
  unfolding begin_refresh
  begin_refresh-IsWell runtime key s free w =
      let before : Running = record { group = s.refresh_group; running = s.refreshing } in
      elim (Bool-cases (admit key s.refresh_group).0) [
        | inl let_in ↦ rw let_in (record {
          store = w.store;
          queue = w.queue;
          pool = free;
          group = Background.next w.group (admitted key before let_in);
          steady = record { logs = w.steady.logs; running = w.steady.running };
        })
        | inr kept_out ↦ rw kept_out (record {
          store = w.store;
          queue = w.queue;
          pool = w.pool;
          group = Background.next w.group (refused key before kept_out);
          steady = record { logs = w.steady.logs; running = w.steady.running };
        })
      ]

  pub take_job-IsWell :
      (runtime : Runtime) (waited : Bool) (got : Dequeued) (s : Shared)
      → suc (length s.refreshing) ≤ workers
      → IsWell budget workers s
      → IsWell budget workers (take_job pl net enc not_found app runtime waited got s)
  unfolding take_job
  take_job-IsWell runtime waited stopped s free w = w
  take_job-IsWell runtime waited waiting s free w = w
  take_job-IsWell runtime waited (job key) s free w =
      let begun = begin_refresh pl net enc not_found app runtime key s in
      either_IsWell (is_empty key) s (if not waited then s else begun) w
        (either_IsWell (not waited) s begun w (begin_refresh-IsWell runtime key s free w))

  pub end_refresh-IsWell :
      (runtime : Runtime) (out : Outside) (n : ℕ) (s : Shared)
      → IsWell budget workers s
      → IsWell budget workers
          (end_refresh pl net enc not_found app runtime out (split_at n s.refreshing) s)
  unfolding end_refresh
  end_refresh-IsWell runtime out n s w = go _ refl
    where
      go :
          (found : Option (List Str × Str × List Str))
          → split_at n s.refreshing ≡ found
          → IsWell budget workers (end_refresh pl net enc not_found app runtime out found s)
      go none e = w
      go (some (before, key, after)) e = record {
        store =
            refresh_once_by_key-kept pl memory_store (service_of pl app) (IsWithin budget)
              (store_kept budget) out key s.running.world w.store;
        queue = w.queue;
        pool =
            let size = ap length (append-split_at n s.refreshing before after key e) in
            omega
              (arith, w.pool, size, length-append before (key ∷ after), length-append before after);
        group =
            Background.next
              (subst (λ l. Reachable (record { group = s.refresh_group; running = l }))
                (append-split_at n s.refreshing before after key e) w.group)
              (ended key before after s.refresh_group);
        steady = record { logs = w.steady.logs; running = w.steady.running };
      }
