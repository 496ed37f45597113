-- ===== src/Playback/Remux/Plan.antt =====
-- How building and running the pipeline of an export ends.
use oasis_nvr.Prelude.{ℕ, suc, ◌≡◌, ◌⊎◌, refl, Bool, List, [], ◌∷◌, ◌++◌, map}
use oasis_nvr.Utf8.{Text}
use oasis_nvr.Calls.{Calls, perform}
use oasis_nvr.Calls.Plans.{Completes, Breaks, perform-append, perform-ends}
use oasis_nvr.Playback.Remux.{
  Element, concat, mp4mux, filesink, filesrc, qtdemux, Call, make, add, link, request_sink,
  set_playing, get_bus, Popped, wait, add_segments, remux_segments,
}

-- What is done for one segment, and for all from number `i` on.
abbrev pub segment_plan : ℕ → Text → List Call
segment_plan i path =
    map make (filesrc i path ∷ qtdemux i ∷ [])
    ++ (map add (filesrc i path ∷ qtdemux i ∷ [])
        ++ (link (filesrc i path) (qtdemux i) ∷ request_sink i ∷ []))

abbrev pub segments_plan : ℕ → List Text → List Call
segments_plan i [] = []
segments_plan i (path ∷ paths) = segment_plan i path ++ segments_plan (suc i) paths

abbrev outputs : Text → List Element
outputs output = concat ∷ mp4mux ∷ filesink output ∷ []

-- The three elements of the output, then the segments in their order, then the start.
abbrev pub plan : List Text → Text → List Call
plan paths output =
    (map make (outputs output)
      ++ (map add (outputs output) ++ (link mp4mux (filesink output) ∷ [])))
    ++ (segments_plan 0 paths ++ (set_playing ∷ get_bus ∷ []))

add_segments-perform :
    (works : Call → Bool) (i : ℕ) (paths : List Text) (rest : Calls Call (Unit {0}))
    → add_segments works i paths rest ≡ perform works (segments_plan i paths) rest
unfolding add_segments perform
add_segments-perform works i [] rest = refl
add_segments-perform works i (path ∷ paths) rest =
    rw (add_segments-perform works (suc i) paths rest) refl

remux_segments-perform :
    (works : Call → Bool) (popped : Popped) (paths : List Text) (output : Text)
    → remux_segments works popped paths output
      ≡ perform works (plan paths output) (wait works popped)
unfolding remux_segments perform
remux_segments-perform works popped paths output =
    rw
      (
        add_segments-perform works 0 paths _,
        perform-append works (segments_plan 0 paths) (set_playing ∷ get_bus ∷ [])
            (wait works popped),
      )
      refl

-- An export's pipeline is built by the plan: the three elements of the output, then for each
-- segment in order a source, a demuxer and a pad of `concat`, then the start. Either all of these
-- calls succeed, and then the message that comes decides, after which the pipeline is stopped; or
-- the first call that fails is the last one made, and its error is returned.
pub remux_segments-plan :
    (works : Call → Bool) (popped : Popped) (paths : List Text) (output : Text)
    → Completes works
        (plan paths output)
        (wait works popped)
        (remux_segments works popped paths output)
      ⊎ Breaks works (plan paths output) (remux_segments works popped paths output)
remux_segments-plan works popped paths output =
    rw (remux_segments-perform works popped paths output)
      (perform-ends works (plan paths output) (wait works popped))
