-- ===== src/Manager/Tasks.antt =====
-- Whether a worker task can outlive the manager.
use oasis_nvr.Prelude.{
  ℕ, ◌≤◌, ◌≡◌, ◌⊎◌, refl, sym, ap, ◌∙◌, Bool, true, false, ◌||◌, Option, none, some, List, [], ◌∷◌,
  ◌++◌, arith, ◌==◌, bytes_eq, inl, inr, Bool-cases,
}
use oasis_nvr.Prelude.Cases.{Option-cases}
use oasis_nvr.Utf8.{Text}
use oasis_nvr.Config.{CameraConfig}
use oasis_nvr.Manager.Cameras.{find-remove_absent}
use oasis_nvr.Manager.{
  Call, spawn, abort, abort_writer, WorkerEntry, RecordingManager, find_worker, remove_worker,
  insert_worker, start_worker, add_camera, remove_camera,
}

-- Whether the task was aborted, and whether an entry of the table holds it.
abbrev aborts : ℕ → Call → Bool
aborts h (abort k) = k == h
aborts h (spawn k c) = false
aborts h abort_writer = false

abbrev pub is_aborted : ℕ → List Call → Bool
is_aborted h [] = false
is_aborted h (c ∷ cs) = aborts h c || is_aborted h cs

abbrev pub holds_task : ℕ → List (Text × WorkerEntry) → Bool
holds_task h [] = false
holds_task h (w ∷ ws) = (w.1.handle == h) || holds_task h ws

-- Every task that was spawned is in the table or was aborted.
abbrev pub Accounted : RecordingManager → Type 0
Accounted m = (h : ℕ) → (m.next ≤ h) ⊎ ((holds_task h m.workers || is_aborted h m.calls) ≡ true)

pub or-true : (a : Bool) → (a || true) ≡ true
or-true true = refl
or-true false = refl

pub or_assoc : (a b c : Bool) → ((a || b) || c) ≡ (a || (b || c))
or_assoc true b c = refl
or_assoc false b c = refl

pub is_aborted-append :
    (h : ℕ) (xs ys : List Call) → is_aborted h (xs ++ ys) ≡ (is_aborted h xs || is_aborted h ys)
is_aborted-append h [] ys = refl
is_aborted-append h (x ∷ xs) ys =
    ap (◌||◌ (aborts h x)) (is_aborted-append h xs ys)
    ∙ sym (or_assoc (aborts h x) (is_aborted h xs) (is_aborted h ys))

or-false : (a : Bool) → (a || false) ≡ a
or-false true = refl
or-false false = refl

pub start_worker-Accounted :
    (m : RecordingManager) (c : CameraConfig)
    → find_worker c.id m.workers ≡ none
    → Accounted m
    → Accounted (start_worker m c)
unfolding start_worker insert_worker
start_worker-Accounted m c e a h =
    rw (find-remove_absent c.id m.workers e, is_aborted-append h m.calls (spawn m.next c ∷ []))
      (elim (Bool-cases (m.next == h)) [
        | inl t ↦ inr (rw t refl)
        | inr f ↦ elim (a h) [
          | inl le ↦ inl (ground arith)
          | inr y ↦ inr (rw (f, or-false (is_aborted h m.calls)) y)
        ]
      ])

pub add_camera-Accounted :
    (m : RecordingManager) (c : CameraConfig) → Accounted m → Accounted (add_camera m c).1
unfolding add_camera
add_camera-Accounted m c a = elim (Option-cases (find_worker c.id m.workers)) [
  | inl e ↦ rw (add_camera, e) (start_worker-Accounted m c e a)
  | inr e ↦ rw (add_camera, e.1) a
]

-- Of the tasks that the table held, all but the removed entry's are still held.
remove_worker-holds :
    (id : Text) (ws : List (Text × WorkerEntry)) (e : WorkerEntry) (h : ℕ)
    → find_worker id ws ≡ some e
    → holds_task h ws ≡ true
    → ((e.handle == h) ≡ true) ⊎ (holds_task h (remove_worker id ws) ≡ true)
unfolding find_worker remove_worker
remove_worker-holds id [] e h f held = absurd (ground arith)
remove_worker-holds id (w ∷ ws) e h f held = elim (Bool-cases (bytes_eq w.0 id)) [
  | inl t ↦
      let q : Path (Option WorkerEntry) (some w.1) (some e) = rw t at f in
      let same : w.1 ≡ e = cc in
      elim (Bool-cases (w.1.handle == h)) [
        | inl here ↦ inl (rw (← same) here)
        | inr there ↦ inr (rw t (rw there at held))
      ]
  | inr n ↦ elim (Bool-cases (w.1.handle == h)) [
    | inl here ↦ inr (rw (n, here) refl)
    | inr there ↦ elim (remove_worker-holds id ws e h (rw n at f) (rw there at held)) [
      | inl x ↦ inl x
      | inr y ↦ inr (rw (n, there) y)
    ]
  ]
]

pub remove_camera-Accounted :
    (m : RecordingManager) (id : Text) → Accounted m → Accounted (remove_camera m id).1
unfolding remove_camera
remove_camera-Accounted m id a = elim (Option-cases (find_worker id m.workers)) [
  | inl e ↦ rw (remove_camera, e) a
  | inr (e, found) ↦
      rw (remove_camera, found)
        (λ h. elim (a h) [
          | inl le ↦ inl le
          | inr y ↦ inr (
              rw (is_aborted-append h m.calls (abort e.handle ∷ []), or-false (e.handle == h))
                (elim (Bool-cases (is_aborted h m.calls)) [
                  | inl t ↦ rw t (or-true (holds_task h (remove_worker id m.workers)))
                  | inr f ↦
                      rw f
                        (elim (remove_worker-holds id m.workers e h found
                          (sym (or-false (holds_task h m.workers)) ∙ rw f at y)) [
                            | inl x ↦ rw x (or-true (holds_task h (remove_worker id m.workers)))
                            | inr z ↦ rw z refl
                          ])
                ]))
        ])
]
