-- ===== src/Manager/Shutdown.antt =====
-- The life of a manager from its start to its shutdown.
use oasis_nvr.Prelude.{
  ℕ, ◌<◌, ◌≡◌, refl, sym, ap, ◌∙◌, true, false, ◌||◌, none, List, [], ◌∷◌, ◌++◌, map, arith, ◌==◌,
  bytes_eq, All, Ordered, inl, inr, Bool-cases,
}
use oasis_nvr.Utf8.{Text}
use oasis_nvr.Config.{CameraConfig}
use oasis_nvr.Manager.{
  Call, abort, abort_writer, WorkerEntry, RecordingManager, find_worker, remove_worker,
  insert_worker, start_worker, start_workers, add_camera, remove_camera, shutdown,
}
use oasis_nvr.Manager.Cameras.{find-remove_absent}
use oasis_nvr.Manager.Tasks.{
  is_aborted, holds_task, Accounted, or-true, or_assoc, is_aborted-append, start_worker-Accounted,
  add_camera-Accounted, remove_camera-Accounted,
}

abbrev pub IdsDiffer : CameraConfig → CameraConfig → Type 0
IdsDiffer c d = bytes_eq c.id d.id ≡ false

-- The managers that the program can have, where the configured cameras had different ids.
pub data Managed : RecordingManager → Type 0 where
  started :
      (cs : List CameraConfig)
      → Ordered IdsDiffer cs
      → Managed (start_workers (record { workers = []; next = 0; calls = [] }) cs)
  added : {m : RecordingManager} (c : CameraConfig) → Managed m → Managed (add_camera m c).1
  removed : {m : RecordingManager} (id : Text) → Managed m → Managed (remove_camera m id).1

-- A camera with another id has no worker after this one's was started either.
start_worker-none :
    (m : RecordingManager) (c : CameraConfig) (ds : List CameraConfig)
    → find_worker c.id m.workers ≡ none
    → All (IdsDiffer c) ds
    → All (λ d. find_worker d.id m.workers ≡ none) ds
    → All (λ d. find_worker d.id (start_worker m c).workers ≡ none) ds
unfolding start_worker insert_worker find_worker
start_worker-none m c [] e h n = tt
start_worker-none m c (d ∷ ds) e h n =
    (rw (find-remove_absent c.id m.workers e, h.0) n.0, start_worker-none m c ds e h.1 n.1)

start_workers-Accounted :
    (cs : List CameraConfig) (m : RecordingManager)
    → Ordered IdsDiffer cs
    → All (λ c. find_worker c.id m.workers ≡ none) cs
    → Accounted m
    → Accounted (start_workers m cs)
unfolding start_workers
start_workers-Accounted [] m o n a = a
start_workers-Accounted (c ∷ cs) m o n a =
    start_workers-Accounted cs (start_worker m c) o.1 (start_worker-none m c cs n.0 o.0 n.1)
      (start_worker-Accounted m c n.0 a)

no_worker : (cs : List CameraConfig) → All (λ c. find_worker c.id [] ≡ none) cs
unfolding find_worker
no_worker [] = tt
no_worker (c ∷ cs) = (refl, no_worker cs)

Managed-Accounted : {m : RecordingManager} → Managed m → Accounted m
Managed-Accounted (started cs o) =
    start_workers-Accounted cs _ o (no_worker cs) (λ h. inl (omega arith))
Managed-Accounted (added {m} c r) = add_camera-Accounted m c (Managed-Accounted r)
Managed-Accounted (removed {m} id r) = remove_camera-Accounted m id (Managed-Accounted r)

is_aborted-map :
    (h : ℕ) (ws : List (Text × WorkerEntry)) (cs : List Call)
    → is_aborted h (map (λ (w : Text × WorkerEntry). abort w.1.handle) ws ++ cs)
      ≡ (holds_task h ws || is_aborted h cs)
is_aborted-map h [] cs = refl
is_aborted-map h (w ∷ ws) cs =
    ap (◌||◌ (w.1.handle == h)) (is_aborted-map h ws cs)
    ∙ sym (or_assoc (w.1.handle == h) (holds_task h ws) (is_aborted h cs))

-- No worker outlives the shutdown: where the cameras of the configuration have different ids, and
-- through any additions and removals of cameras, every worker task that was ever spawned has been
-- aborted when `shutdown` ends.
pub shutdown-aborts :
    (m : RecordingManager) (h : ℕ) → Managed m → h < m.next → is_aborted h (shutdown m) ≡ true
unfolding shutdown
shutdown-aborts m h r lt = elim (Managed-Accounted r h) [
  | inl le ↦ absurd (omega arith)
  | inr y ↦
      rw (is_aborted-append h m.calls _, is_aborted-map h m.workers (abort_writer ∷ []))
        (elim (Bool-cases (holds_task h m.workers)) [
          | inl t ↦ rw t (or-true (is_aborted h m.calls))
          | inr f ↦ let done : is_aborted h m.calls ≡ true = rw f at y in rw (f, done) refl
        ])
]

-- Where two cameras of the configuration have one id, the first one's worker does outlive it: the
-- second one's entry has replaced its own, and nothing aborts its task.
pub shutdown-orphans :
    (c d : CameraConfig)
    → bytes_eq c.id d.id ≡ true
    → is_aborted 0
        (shutdown (start_workers (record { workers = []; next = 0; calls = [] }) (c ∷ d ∷ [])))
      ≡ false
unfolding shutdown start_workers start_worker insert_worker remove_worker
shutdown-orphans c d e = rw e refl
