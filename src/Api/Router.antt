-- ===== src/Api/Router.antt =====
-- `build_router` of src/api.rs: which handler a request goes to. How a pattern is compared with a
-- path is the crate axum's; a path is its parts between the slashes.
pub mod Documented
use Prim.Native.String.{String}
use text.Mathlib.Text
use text.Mathlib.TextEquality.{eq_iff}
use oasis_nvr.Prelude.{
  ℕ, zero, suc, ◌≡◌, refl, Bool, true, false, ◌&&◌, ◌||◌, not, Option, none, some, List, [], ◌∷◌,
  arith, get_elem?, ◌==◌, if◌then◌else◌, inl, inr, Bool-cases,
}

pub data Method : Type 0 where
  get post delete head options other : Method

-- The handlers.
pub data Endpoint : Type 0 where
  status list export login : Endpoint
  hls_live hls_vod hls_segment hls_player vod_player dash_manifest : Endpoint
  list_cameras add_camera remove_camera : Endpoint

pub data Part : Type 0 where
  fixed : String → Part
  param : Part

pub record Route : Type 0 where
  pub pattern : List Part
  pub methods : List (Method × Endpoint)

abbrev route : List Part → List (Method × Endpoint) → Route
route pattern methods = record { pattern = fixed "api" ∷ pattern; methods = methods }

-- The routes in their order.
unfoldable pub build_router : List Route
build_router =
    route (fixed "status" ∷ []) ((get, status) ∷ [])
    ∷ route (fixed "list" ∷ []) ((get, list) ∷ [])
    ∷ route (fixed "export" ∷ []) ((get, export) ∷ [])
    ∷ route (fixed "hls" ∷ param ∷ fixed "live.m3u8" ∷ []) ((get, hls_live) ∷ [])
    ∷ route (fixed "hls" ∷ param ∷ fixed "vod.m3u8" ∷ []) ((get, hls_vod) ∷ [])
    ∷ route (fixed "hls" ∷ param ∷ fixed "segment" ∷ fixed "mp4" ∷ param ∷ [])
        ((get, hls_segment) ∷ [])
    ∷ route (fixed "hls" ∷ param ∷ fixed "player" ∷ []) ((get, hls_player) ∷ [])
    ∷ route (fixed "hls" ∷ param ∷ fixed "vod" ∷ fixed "player" ∷ []) ((get, vod_player) ∷ [])
    ∷ route (fixed "dash" ∷ param ∷ fixed "manifest.mpd" ∷ []) ((get, dash_manifest) ∷ [])
    ∷ route (fixed "cameras" ∷ []) ((get, list_cameras) ∷ (post, add_camera) ∷ [])
    ∷ route (fixed "cameras" ∷ param ∷ []) ((delete, remove_camera) ∷ [])
    ∷ route (fixed "login" ∷ []) ((post, login) ∷ [])
    ∷ []

-- What becomes of a request: its handler, 405, a file of the frontend (`fallback_service`), or the
-- answer that `CorsLayer` gives to OPTIONS.
pub data Dispatched : Type 0 where
  handled : Endpoint → Dispatched
  method_not_allowed static_file preflight : Dispatched

abbrev pub code : Method → ℕ
code get = 0
code post = 1
code delete = 2
code head = 3
code options = 4
code other = 5

abbrev pub same_method : Method → Method → Bool
same_method m n = code m == code n

-- `get(handler)` also takes HEAD, as axum documents.
abbrev pub takes : Method → Method → Bool
takes registered m = same_method registered m || (same_method registered get && same_method m head)

unfoldable pub by_method : Method → List (Method × Endpoint) → Dispatched
by_method m [] = method_not_allowed
by_method m ((n, e) ∷ es) = let rest = by_method m es in if takes n m then handled e else rest

unfoldable pub find_route :
    (List Part → List String → Bool) → List String → List Route → Option Route
find_route fits path [] = none
find_route fits path (r ∷ rs) =
    let rest = find_route fits path rs in if fits r.pattern path then some r else rest

-- `fits` is the comparison of a pattern with a path. The layer of `CorsLayer::permissive()` lies
-- around all routes and, as tower-http documents, answers OPTIONS itself.
unfoldable pub dispatch : (List Part → List String → Bool) → Method → List String → Dispatched
dispatch fits method path =
    let inner : Dispatched = elim (find_route fits path build_router) [
      | none ↦ static_file
      | some r ↦ by_method method r.methods
    ] in
    if same_method method options then preflight else inner

-- What the documentation of axum says of a pattern: a part in braces stands for any one part of the
-- path, and any other for itself.
abbrev pub Fits : List Part → List String → Type 0
Fits [] [] = Unit {0}
Fits [] (t ∷ path) = ⊥
Fits (p ∷ ps) [] = ⊥
Fits (fixed s ∷ ps) (t ∷ path) = (s ≡ t) × Fits ps path
Fits (param ∷ ps) (t ∷ path) = Fits ps path

-- The patterns have different lengths, or different texts somewhere.
apart : List Part → List Part → Bool
apart [] [] = false
apart [] (q ∷ qs) = true
apart (p ∷ ps) [] = true
apart (fixed s ∷ ps) (fixed t ∷ qs) = not (Text.◌==◌ s t) || apart ps qs
apart (fixed s ∷ ps) (param ∷ qs) = apart ps qs
apart (param ∷ ps) (q ∷ qs) = apart ps qs

Fits-apart :
    (ps qs : List Part) (path : List String) → Fits ps path → Fits qs path → apart ps qs ≡ false
unfolding apart
Fits-apart [] [] path f g = refl
Fits-apart [] (q ∷ qs) [] f g = absurd g
Fits-apart [] (q ∷ qs) (t ∷ path) f g = absurd f
Fits-apart (p ∷ ps) [] [] f g = absurd f
Fits-apart (p ∷ ps) [] (t ∷ path) f g = absurd g
Fits-apart (p ∷ ps) (q ∷ qs) [] f g = absurd f
Fits-apart (fixed s ∷ ps) (fixed u ∷ qs) (t ∷ path) f g =
    ground (arith, eq_iff s u, Fits-apart ps qs path f.1 g.1)
Fits-apart (fixed s ∷ ps) (param ∷ qs) (t ∷ path) f g = Fits-apart ps qs path f.1 g
Fits-apart (param ∷ ps) (fixed u ∷ qs) (t ∷ path) f g = Fits-apart ps qs path f g.1
Fits-apart (param ∷ ps) (param ∷ qs) (t ∷ path) f g = Fits-apart ps qs path f g

apart_from : Route → List Route → Bool
unfolding apart
apart_from r [] = true
apart_from r (x ∷ xs) = apart r.pattern x.pattern && apart_from r xs

all_apart : List Route → Bool
unfolding apart_from
all_apart [] = true
all_apart (r ∷ rs) = apart_from r rs && all_apart rs

apart_from-get :
    (r x : Route) (rs : List Route) (i : ℕ)
    → apart_from r rs ≡ true
    → get_elem? rs i ≡ some x
    → apart r.pattern x.pattern ≡ true
unfolding apart_from
apart_from-get r x [] i h e = absurd (ground arith)
apart_from-get r x (y ∷ ys) zero h e = ground arith
apart_from-get r x (y ∷ ys) (suc i) h e = ground (arith, apart_from-get r x ys i)

module _ (fits : List Part → List String → Bool)
    (law : (p : List Part) (path : List String) → fits p path ≡ true → Fits p path) where
  find_route-apart :
      (rs : List Route) (i : ℕ) (r : Route) (path : List String)
      → all_apart rs ≡ true
      → get_elem? rs i ≡ some r
      → fits r.pattern path ≡ true
      → find_route fits path rs ≡ some r
  unfolding find_route all_apart
  find_route-apart [] i r path h e f = absurd (ground arith)
  find_route-apart (x ∷ xs) zero r path h e f =
      let same : x ≡ r = cc in rw (find_route, same, f) refl
  find_route-apart (x ∷ xs) (suc i) r path h e f = elim (Bool-cases (fits x.pattern path)) [
    | inl t ↦
        let no = Fits-apart x.pattern r.pattern path (law _ path t) (law _ path f) in
        absurd (ground (arith, apart_from-get x r xs i))
    | inr t ↦ rw (find_route, t) (find_route-apart xs i r path (ground arith) e f)
  ]

  -- Where the one route that fits a path stands among the others does not matter.
  pub dispatch-route :
      (i : ℕ) (r : Route) (method : Method) (path : List String)
      → get_elem? build_router i ≡ some r
      → fits r.pattern path ≡ true
      → same_method method options ≡ false
      → dispatch fits method path ≡ by_method method r.methods
  unfolding dispatch build_router all_apart
  dispatch-route i r method path e f plain =
      rw (dispatch, plain, find_route-apart build_router i r path refl e f) refl
