-- ===== src/Camera/Pipeline/Connects.antt =====
-- Which attempt of `supervised_connect` gives the stream.
use oasis_nvr.Prelude.{
  ℕ, zero, suc, ◌+◌, ◌<◌, ◌≡◌, ◌∙◌, subst, refl, Bool, true, false, ◌&&◌, some, List, [], ◌∷◌,
  arith,
}
use oasis_nvr.Chrono.{Time}
use oasis_nvr.Config.{CameraConfig}
use oasis_nvr.Camera.{backoff, connect_loop, max_attempts, supervised_connect}
use oasis_nvr.Camera.Pipeline.{
  Call, init, create_dir_all, launch, downcast, find_src, find_splitmux, set_playing, as_nanos,
  connect, is_ok, supervised,
}

-- The calls of `connect` that can fail.
abbrev pub fallible : CameraConfig → ℕ → List Call
fallible c segment_duration =
    init
    ∷ create_dir_all
    ∷ launch c.url (as_nanos segment_duration)
    ∷ downcast
    ∷ find_src
    ∷ find_splitmux
    ∷ set_playing
    ∷ []

abbrev pub all_work : (Call → Bool) → List Call → Bool
all_work works [] = true
all_work works (c ∷ cs) = works c && all_work works cs

connect-is_ok :
    (works : Call → Bool) (c : CameraConfig) (segment_duration : ℕ) (now : Time)
    → is_ok (connect works c segment_duration now).1 ≡ all_work works (fallible c segment_duration)
unfolding connect
connect-is_ok works c segment_duration now = ground arith

-- The pauses after `k` failed attempts, the first of which was number `i`.
abbrev pub pauses : ℕ → ℕ → List ℕ
pauses zero i = []
pauses (suc k) i = backoff (suc i) ∷ pauses k (suc i)

connect_loop-first :
    (succeeds : ℕ → Bool) (left i k : ℕ)
    → k < left
    → ((j : ℕ) → j < k → succeeds (i + j) ≡ false)
    → succeeds (i + k) ≡ true
    → connect_loop succeeds left i ≡ (some (i + k), pauses k i)
unfolding connect_loop
connect_loop-first succeeds zero i k lt fail win = absurd (omega arith)
connect_loop-first succeeds (suc left) i zero lt fail win =
    let here : i + 0 ≡ i = omega arith in
    let won : succeeds i ≡ true = subst (λ (x : ℕ). succeeds x ≡ true) here win in
    rw (connect_loop, won, here) refl
connect_loop-first succeeds (suc left) i (suc k) lt fail win =
    let here : i + 0 ≡ i = omega arith in
    let lost : succeeds i ≡ false =
      subst (λ (x : ℕ). succeeds x ≡ false) here (fail 0 (omega arith)) in
    let next : (j : ℕ) → suc i + j ≡ i + suc j = λ j. omega arith in
    rw
      (
        connect_loop,
        lost,
        connect_loop-first succeeds left (suc i) k (omega arith)
            (λ j l. rw (next j) (fail (suc j) (omega arith))) (rw (next k) win),
        next k,
      )
      refl

-- The camera is connected by the first attempt at which GStreamer can be started, the directory be
-- made, the pipeline be parsed, its two elements be found and it be started, provided that this is
-- among the attempts configured; before it come exactly the pauses of the failed attempts.
pub supervised-first :
    (c : CameraConfig) (segment_duration : ℕ) (works : ℕ → Call → Bool) (now : ℕ → Time) (k : ℕ)
    → k < max_attempts c
    → ((j : ℕ) → j < k → all_work (works j) (fallible c segment_duration) ≡ false)
    → all_work (works k) (fallible c segment_duration) ≡ true
    → supervised c segment_duration works now ≡ (some k, pauses k 0)
unfolding supervised_connect
supervised-first c segment_duration works now k lt fail win =
    subst (λ (x : ℕ). connect_loop succeeds (max_attempts c) 0 ≡ (some x, pauses k 0)) (zero_add k)
      (connect_loop-first succeeds (max_attempts c) 0 k lt
        (λ j l. rw (zero_add j) (ok_of j ∙ fail j l)) (rw (zero_add k) (ok_of k ∙ win)))
  where
    succeeds : ℕ → Bool
    succeeds j = is_ok (connect (works j) c segment_duration (now j)).1

    zero_add : (j : ℕ) → 0 + j ≡ j
    zero_add j = omega arith

    ok_of :
        (j : ℕ)
        → is_ok (connect (works j) c segment_duration (now j)).1
          ≡ all_work (works j) (fallible c segment_duration)
    ok_of j = connect-is_ok (works j) c segment_duration (now j)
