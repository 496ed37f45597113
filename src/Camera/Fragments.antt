-- ===== src/Camera/Fragments.antt =====
-- Which fragments of a stream reach the ingestion worker.
use oasis_nvr.Prelude.{ℕ, ◌≡◌, refl, ap, false, some, List, [], ◌∷◌, map}
use oasis_nvr.Chrono.{Time}
use oasis_nvr.Camera.{SegmentReady, remove_file, send, connected, signal_effects}

-- Each fragment that is complete, from its own signal to the next one's; the last is still open.
abbrev pub spans : List (ℕ × Time) → List SegmentReady
spans [] = []
spans ((f, t) ∷ []) = []
spans ((f, t) ∷ (g, u) ∷ rest) =
    record { path = f; start_ts = t; end_ts = u } ∷ spans ((g, u) ∷ rest)

running-spans :
    (f : ℕ) (t : Time) (signals : List (ℕ × Time))
    → (signal_effects
        (record { current_path = some f; current_start = t; discard_next = false })
        signals).0
      ≡ map send (spans ((f, t) ∷ signals))
unfolding signal_effects
running-spans f t [] = refl
running-spans f t ((g, u) ∷ signals) =
    ap (◌∷◌ (send (record { path = f; start_ts = t; end_ts = u }))) (running-spans g u signals)

-- Of a stream's fragments the first is deleted when it is complete, and all others are sent in order
-- when they are complete, each with the times of its own signal and of the next.
pub signal_effects-spans :
    (began : Time) (f : ℕ) (t : Time) (g : ℕ) (u : Time) (signals : List (ℕ × Time))
    → (signal_effects (connected began) ((f, t) ∷ (g, u) ∷ signals)).0
      ≡ remove_file f ∷ map send (spans ((g, u) ∷ signals))
unfolding signal_effects
signal_effects-spans began f t g u signals = ap (◌∷◌ (remove_file f)) (running-spans g u signals)
