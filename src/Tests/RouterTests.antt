-- ===== src/Tests/RouterTests.antt =====
-- The theorem on the router at a concrete path.
use Prim.Native.String.{String}
use text.Mathlib.Text
use text.Mathlib.TextEquality.{eq_iff}
use oasis_nvr.Prelude.{◌≡◌, refl, Bool, true, false, ◌&&◌, List, [], ◌∷◌, arith, inl}
use oasis_nvr.Api.Router.{Part, fixed, param, Fits, get, handled, hls_live, dispatch}
use oasis_nvr.Api.Router.Documented.{dispatch-documented}

-- The documented comparison.
matches : List Part → List String → Bool
matches [] [] = true
matches [] (t ∷ path) = false
matches (p ∷ ps) [] = false
matches (fixed s ∷ ps) (t ∷ path) = Text.◌==◌ s t && matches ps path
matches (param ∷ ps) (t ∷ path) = matches ps path

matches-Fits : (ps : List Part) (path : List String) → matches ps path ≡ true → Fits ps path
unfolding matches
matches-Fits [] [] h = tt
matches-Fits [] (t ∷ path) h = cc
matches-Fits (p ∷ ps) [] h = cc
matches-Fits (fixed s ∷ ps) (t ∷ path) h =
    (ground (arith, eq_iff s t), matches-Fits ps path (ground arith))
matches-Fits (param ∷ ps) (t ∷ path) h = matches-Fits ps path h

dispatch-documented_example :
    dispatch matches get ("api" ∷ "hls" ∷ "cam1" ∷ "live.m3u8" ∷ []) ≡ handled hls_live
unfolding matches
dispatch-documented_example =
    (dispatch-documented matches matches-Fits hls_live get
        ("api" ∷ "hls" ∷ "cam1" ∷ "live.m3u8" ∷ [])).1
      (inl refl, refl)
