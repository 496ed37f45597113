-- ===== src/Tests/PipelineTests.antt =====
-- The theorems on the GStreamer pipelines at concrete inputs.
use oasis_nvr.Prelude.{
  ℕ, zero, suc, ◌<◌, ◌≡◌, ◌⊎◌, refl, Bool, true, false, not, none, some, List, [], ◌∷◌, ◌++◌, arith,
  ltb, bytes_eq,
}
use oasis_nvr.Utf8.{Text}
use oasis_nvr.Config.{CameraConfig}
use oasis_nvr.Calls.Plans.{Completes, Breaks}
use oasis_nvr.Playback.Remux
use oasis_nvr.Playback.Remux.{
  Pad, eos, h264parse, video, video_x_h264, wait, parser_for, remux_segments, link_pad,
}
use oasis_nvr.Playback.Remux.Plan.{plan, remux_segments-plan}
use oasis_nvr.Playback.Remux.Pads.{pads_run, parser_calls, links, pads_run-parser}
use oasis_nvr.Camera.Pipeline
use oasis_nvr.Camera.Pipeline.{
  Structure, h264, h264_name, request_video, PadCall, supervised, pad_added, encoding_of,
}
use oasis_nvr.Camera.Pipeline.Chain.{recorded, Linked, Broken, pad_added-Chain}
use oasis_nvr.Camera.Pipeline.Connects.{fallible, all_work, supervised-first}

-- Two staged files, and a pipeline that cannot be started.
abbrev files : List Text
files = (97 ∷ []) ∷ (98 ∷ []) ∷ []

abbrev output : Text
output = 111 ∷ []

abbrev cannot_play : Remux.Call → Bool
cannot_play Remux.set_playing = false
cannot_play _ = true

remux_segments-plan_example :
    Completes cannot_play
      (plan files output)
      (wait cannot_play eos)
      (remux_segments cannot_play eos files output)
    ⊎ Breaks cannot_play (plan files output) (remux_segments cannot_play eos files output)
remux_segments-plan_example = remux_segments-plan cannot_play eos files output

-- The pads of two segments, the sound of the first before its video.
abbrev pad : ℕ → Text → Pad
pad i name = record { segment = i; name = name; caps = some (some video_x_h264) }

abbrev sound : Text
sound = 97 ∷ 117 ∷ 100 ∷ 105 ∷ 111 ∷ []

abbrev sounds : List Pad
sounds = pad 0 sound ∷ []

abbrev later_pads : List Pad
later_pads = pad 0 video ∷ []

abbrev always : ℕ → Remux.Call → Bool
always k c = true

pads_run-parser_example :
    pads_run always 0 none (sounds ++ (pad 1 video ∷ later_pads))
    ≡ (link_pad 1 ∷ (parser_calls h264parse ++ links later_pads), some h264parse)
unfolding parser_for bytes_eq
pads_run-parser_example =
    pads_run-parser always 0 sounds (pad 1 video) later_pads video_x_h264 h264parse (λ j c. refl)
      (refl, tt) refl refl refl

-- A camera that sends H264 twice: the second pad finds no free pad of `splitmuxsink`.
abbrev structure : Structure
structure = record { media = some Pipeline.video; encoding_name = some h264_name }

abbrev no_video_pad : PadCall → Bool
no_video_pad request_video = false
no_video_pad _ = true

pad_added-Chain_example :
    ((recorded (some (some structure)) ≡ none)
      × (pad_added no_video_pad (some (some structure)) ≡ ([], false)))
    ⊎ ((e : Pipeline.Encoding) × (recorded (some (some structure)) ≡ some e)
        × (Linked no_video_pad e (pad_added no_video_pad (some (some structure)))
            ⊎ Broken no_video_pad e (pad_added no_video_pad (some (some structure)))))
pad_added-Chain_example = pad_added-Chain no_video_pad (some (some structure))

-- The camera can be reached from the third attempt on.
abbrev reachable : ℕ → Pipeline.Call → Bool
reachable k Pipeline.set_playing = not (ltb k 2)
reachable k _ = true

abbrev patient : CameraConfig
patient = record { id = []; name = []; url = []; max_reconnect_attempts = 3 }

unreached : (j : ℕ) → j < 2 → all_work (reachable j) (fallible patient 10) ≡ false
unreached zero l = refl
unreached (suc zero) l = refl
unreached (suc (suc j)) l = absurd (omega arith)

supervised-first_example : supervised patient 10 reachable (λ k. 0) ≡ (some 2, 2 ∷ 4 ∷ [])
supervised-first_example =
    supervised-first patient 10 reachable (λ k. 0) 2 (omega arith) unreached refl
