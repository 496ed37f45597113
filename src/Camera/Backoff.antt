-- ===== src/Camera/Backoff.antt =====
-- How often `supervised_connect` tries, and how long it pauses.
use oasis_nvr.Prelude.{
  ℕ, zero, suc, ◌+◌, ◌^◌, min, ◌<◌, ◌≡◌, ◌⊎◌, refl, sym, ap, ◌∙◌, ◌==◌, Bool, true, false, Option,
  none, some, List, [], ◌∷◌, arith, if◌then◌else◌, Bool-cases, inl, inr,
}
use oasis_nvr.Config.{CameraConfig}
use oasis_nvr.Camera.{backoff, connect_loop, max_attempts, supervised_connect}

-- The pause after the attempt with this number, from 0 on: 2, 4, 8, 16 and 32 seconds, then 60.
abbrev pub pause_after : ℕ → ℕ
pause_after zero = 2
pause_after (suc zero) = 4
pause_after (suc (suc zero)) = 8
pause_after (suc (suc (suc zero))) = 16
pause_after (suc (suc (suc (suc zero)))) = 32
pause_after (suc (suc (suc (suc (suc n))))) = 60

abbrev pub pauses_from : ℕ → ℕ → List ℕ
pauses_from n zero = []
pauses_from n (suc k) = pause_after n ∷ pauses_from (suc n) k

-- What the loop does from an attempt on, with some attempts left: it ends at the first attempt that
-- succeeds, or when no attempts are left, and each attempt before that failed and has its pause.
pub record Attempts (succeeds : ℕ → Bool) (left attempt : ℕ) (r : Option ℕ × List ℕ) : Type 0 where
  pub tried : ℕ
  pub failed : (k : ℕ) → k < tried → succeeds (attempt + k) ≡ false
  pub pauses : r.1 ≡ pauses_from attempt tried
  pub ends :
      ((tried ≡ left) × (r.0 ≡ none))
      ⊎ ((tried < left) × (succeeds (attempt + tried) ≡ true) × (r.0 ≡ some (attempt + tried)))

backoff-pause_after : (n : ℕ) → backoff (suc n) ≡ pause_after n
backoff-pause_after zero = refl
backoff-pause_after (suc zero) = refl
backoff-pause_after (suc (suc zero)) = refl
backoff-pause_after (suc (suc (suc zero))) = refl
backoff-pause_after (suc (suc (suc (suc zero)))) = refl
backoff-pause_after (suc (suc (suc (suc (suc n))))) =
    let most : min (suc (suc (suc (suc (suc (suc n)))))) 6 ≡ 6 = omega arith in
    ap (λ (m : ℕ). min (2 ^ m) 60) most

connect_loop-Attempts :
    (succeeds : ℕ → Bool) (left attempt : ℕ)
    → Attempts succeeds left attempt (connect_loop succeeds left attempt)
unfolding connect_loop
connect_loop-Attempts succeeds zero attempt = record {
  tried = 0;
  failed = λ k h. absurd (omega arith);
  pauses = refl;
  ends = inl (refl, refl);
}
connect_loop-Attempts succeeds (suc left) attempt = elim (Bool-cases (succeeds attempt)) [
  | inl e ↦
      let here : attempt + 0 ≡ attempt = omega arith in
      rw e (record {
        tried = 0;
        failed = λ k h. absurd (omega arith);
        pauses = refl;
        ends = inr (omega arith, rw here e, ap some (sym here));
      })
  | inr e ↦
      let k = connect_loop-Attempts succeeds left (suc attempt) in
      let next : attempt + suc k.tried ≡ suc attempt + k.tried = omega arith in
      rw e (record {
        tried = suc k.tried;
        failed = earlier k.tried k.failed e;
        pauses = rw (backoff-pause_after attempt, k.pauses) refl;
        ends = elim k.ends [
          | inl (all, gave_up) ↦ inl (ap suc all, gave_up)
          | inr (less, works, at) ↦
              inr (omega (arith, less), rw next works, at ∙ ap some (sym next))
        ];
      })
]
  where
    earlier :
        (n : ℕ)
        → ((k : ℕ) → k < n → succeeds (suc attempt + k) ≡ false)
        → succeeds attempt ≡ false
        → (k : ℕ) → k < suc n
        → succeeds (attempt + k) ≡ false
    earlier n f e zero h = let here : attempt + 0 ≡ attempt = omega arith in rw here e
    earlier n f e (suc k) h =
        let next : attempt + suc k ≡ suc attempt + k = omega arith in rw next (f k (omega arith))

-- `supervised_connect` ends at the first attempt that succeeds, and gives up only when as many
-- attempts as are configured have failed, where 0 stands for 2^32 - 1. After each attempt that failed
-- it pauses, 2, 4, 8, 16 and 32 seconds and then 60 seconds each time.
pub supervised_connect-Attempts :
    (c : CameraConfig) (succeeds : ℕ → Bool)
    → Attempts succeeds
        (if c.max_reconnect_attempts == 0 then 4294967295 else c.max_reconnect_attempts)
        0
        (supervised_connect c succeeds)
unfolding supervised_connect
supervised_connect-Attempts c succeeds = connect_loop-Attempts succeeds (max_attempts c) 0
