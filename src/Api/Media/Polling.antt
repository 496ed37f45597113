-- ===== src/Api/Media/Polling.antt =====
-- How long the blocking reload of `handle_hls_live` polls.
use mathlib.Core.Option.{get_or}
use oasis_nvr.Prelude.{
  ℕ, zero, suc, ◌+◌, ◌*◌, ◌≤◌, ◌<◌, ◌≡◌, ◌≢◌, refl, Option, none, some, List, [], ◌∷◌, ◌⊎◌, inl,
  inr, arith, leb, ltb, ltb→lt, ltb-false→le, ◌==◌, Bool-cases,
}
use oasis_nvr.Utf8.{Text}
use oasis_nvr.Storage.Index.{SegmentIndex, SegmentMeta, segments_for_camera}
use oasis_nvr.Hls.{
  Line, max_id, live_window, live_lines, empty_live_playlist, generate_live_playlist,
}
use oasis_nvr.Api.{AppState, mpegurl, answer}
use oasis_nvr.Api.Query.{block_msn}
use oasis_nvr.Api.Media.{Polls, poll_live, handle_hls_live}

-- Whether a poll makes the request wait: the camera has segments, but none with the id or above.
abbrev pub Waits : SegmentIndex → Text → ℕ → Type 0
Waits index camera msn =
    (segments_for_camera index camera ≢ []) × (max_id (segments_for_camera index camera) < msn)

-- What a poll that does not make it wait answers: the playlist of the last segments, one of which has
-- at least the id, or, where the camera has no segment at all, the empty playlist.
abbrev pub Answers : SegmentIndex → Text → ℕ → ℕ → List Line → Type 0
Answers index camera secs msn playlist =
    ((segments_for_camera index camera ≡ []) × (playlist ≡ empty_live_playlist secs))
    ⊎ ((segments_for_camera index camera ≢ [])
        × (msn ≤ max_id (segments_for_camera index camera))
        × (playlist ≡ live_lines secs (live_window (segments_for_camera index camera))))

polled_once :
    (index : SegmentIndex) (camera : Text) (secs msn : ℕ)
    → ((generate_live_playlist index camera secs (some msn) ≡ none) × Waits index camera msn)
      ⊎ ((playlist : List Line) × (generate_live_playlist index camera secs (some msn)
            ≡ some playlist)
          × Answers index camera secs msn playlist)
unfolding generate_live_playlist
polled_once index camera secs msn = by_list (segments_for_camera index camera) refl
  where
    by_list :
        (segs : List SegmentMeta)
        → segments_for_camera index camera ≡ segs
        → ((generate_live_playlist index camera secs (some msn) ≡ none) × Waits index camera msn)
          ⊎ ((playlist : List Line) × (generate_live_playlist index camera secs (some msn)
                ≡ some playlist)
              × Answers index camera secs msn playlist)
    by_list [] e = inr (empty_live_playlist secs, rw e refl, inl (e, refl))
    by_list (m ∷ ms) e = elim (Bool-cases (ltb (max_id (m ∷ ms)) msn)) [
      | inl t ↦ inl (rw (e, t) refl, ((λ q. absurd (ground arith)), rw e (ltb→lt _ _ t)))
      | inr f ↦ inr (
        live_lines secs (live_window (m ∷ ms)),
        rw (e, f) refl,
        inr ((λ q. absurd (ground arith)), rw e (ltb-false→le _ _ f), rw e refl),
      )
    ]

-- How the loop ends that begins with poll `k`: at the first poll that does not make it wait, with what
-- that answers, or, once 30 seconds are over, with the playlist that there is then, after polls that
-- all made it wait.
pub record Polled (p : Polls) (camera : Text) (secs msn k : ℕ) (outcome : Option (List Line))
    : Type 0 where
  pub playlist : List Line
  pub outcome_is : outcome ≡ some playlist
  pub poll : ℕ
  pub from : k ≤ poll
  pub bounded : poll ≤ 150
  pub waited : (j : ℕ) → k ≤ j → j < poll → Waits (p.index j) camera msn
  pub why :
      Answers (p.index poll) camera secs msn playlist
      ⊎ (Waits (p.index poll) camera msn
          × (30000 ≤ p.elapsed poll)
          × (playlist ≡ get_or (generate_live_playlist (p.late poll) camera secs none) []))

poll_live-Polled :
    (p : Polls) (camera : Text) (secs msn fuel k : ℕ)
    → ((j : ℕ) → 200 * j ≤ p.elapsed j)
    → k ≤ 150
    → 151 ≤ fuel + k
    → Polled p camera secs msn k (poll_live p camera secs msn fuel k)
unfolding poll_live
poll_live-Polled p camera secs msn zero k slow le enough = absurd (omega arith)
poll_live-Polled p camera secs msn (suc fuel) k slow le enough =
    elim (polled_once (p.index k) camera secs msn) [
      | inr (playlist, e, right) ↦
          rw (poll_live, e)
            (record {
              playlist = playlist;
              outcome_is = refl;
              poll = k;
              from = omega arith;
              bounded = le;
              waited = λ j a b. absurd (omega (arith, a, b));
              why = inl right;
            })
      | inl (e, wait) ↦
          rw (poll_live, e)
            (elim (Bool-cases (leb 30000 (p.elapsed k))) [
              | inl late ↦ rw late (record {
                playlist = get_or (generate_live_playlist (p.late k) camera secs none) [];
                outcome_is = refl;
                poll = k;
                from = omega arith;
                bounded = le;
                waited = λ j a b. absurd (omega (arith, a, b));
                why = inr (wait, ground arith, refl);
              })
              | inr early ↦
                  let soon : p.elapsed k ≤ 29999 = ground arith in
                  let more =
                    poll_live-Polled p camera secs msn fuel (suc k) slow (omega (arith, slow k))
                      (omega arith) in
                  rw early (record {
                    playlist = more.playlist;
                    outcome_is = more.outcome_is;
                    poll = more.poll;
                    from = omega (arith, more.from);
                    bounded = more.bounded;
                    waited = λ j a b. elim (Bool-cases (j == k)) [
                      | inl same ↦ let q : j ≡ k = ground arith in rw q wait
                      | inr other ↦
                          let above : suc k ≤ j = ground (arith, a) in more.waited j above b
                    ];
                    why = more.why;
                  })
            ])
    ]

-- A blocking reload for a segment id answers 200 after 151 polls at the latest, if the pause of 200
-- ms between two polls is never cut short. It waits as long as the camera has segments but none with
-- the id or above. It ends at the first poll at which there is such a segment, with the playlist of
-- the last segments of that moment; or at the first at which the camera has no segment at all, with
-- the empty playlist; or, when 30 seconds are over, with the playlist that there is then.
pub handle_hls_live-Polled :
    (p : Polls) (state : AppState) (camera : Text) (query : Option Text) (msn fuel : ℕ)
    → ((j : ℕ) → 200 * j ≤ p.elapsed j)
    → block_msn query ≡ some msn
    → 151 ≤ fuel
    → (q : Polled p camera state.config.storage.segment_duration_secs msn 0
        (poll_live p camera state.config.storage.segment_duration_secs msn fuel 0))
      × (handle_hls_live fuel p state camera query ≡ some (answer mpegurl q.playlist))
unfolding handle_hls_live
handle_hls_live-Polled p state camera query msn fuel slow asked enough =
    let q =
      poll_live-Polled p camera state.config.storage.segment_duration_secs msn fuel 0 slow
        (omega arith) (omega arith) in
    (q, rw (handle_hls_live, asked, q.outcome_is) refl)
