-- ===== src/Api/Router/Documented.antt =====
-- `build_router` of src/api.rs against the table of endpoints in README.md.
use Prim.Native.String.{String}
use oasis_nvr.Prelude.{
  ℕ, ◌≡◌, ◌↔◌, ◌⊎◌, refl, sym, ◌∙◌, Bool, true, false, Option, none, some, List, [], ◌∷◌, arith,
  get_elem?, subst, All, inl, inr, Bool-cases,
}
use oasis_nvr.Api.Router.{
  Method, get, post, delete, Endpoint, status, list, export, login, hls_live, hls_vod, hls_segment,
  hls_player, vod_player, dash_manifest, list_cameras, add_camera, remove_camera, head, options,
  other, same_method, static_file, preflight, Part, fixed, param, Route, Fits, build_router,
  handled, method_not_allowed, by_method, find_route, dispatch, dispatch-route,
}

-- The lines of the table: the method and the path of each endpoint.
abbrev pub documented : Endpoint → Method × List Part
documented status = (get, fixed "api" ∷ fixed "status" ∷ [])
documented list = (get, fixed "api" ∷ fixed "list" ∷ [])
documented export = (get, fixed "api" ∷ fixed "export" ∷ [])
documented hls_live = (get, fixed "api" ∷ fixed "hls" ∷ param ∷ fixed "live.m3u8" ∷ [])
documented hls_vod = (get, fixed "api" ∷ fixed "hls" ∷ param ∷ fixed "vod.m3u8" ∷ [])
documented hls_segment =
    (get, fixed "api" ∷ fixed "hls" ∷ param ∷ fixed "segment" ∷ fixed "mp4" ∷ param ∷ [])
documented hls_player = (get, fixed "api" ∷ fixed "hls" ∷ param ∷ fixed "player" ∷ [])
documented vod_player = (get, fixed "api" ∷ fixed "hls" ∷ param ∷ fixed "vod" ∷ fixed "player" ∷ [])
documented dash_manifest = (get, fixed "api" ∷ fixed "dash" ∷ param ∷ fixed "manifest.mpd" ∷ [])
documented list_cameras = (get, fixed "api" ∷ fixed "cameras" ∷ [])
documented add_camera = (post, fixed "api" ∷ fixed "cameras" ∷ [])
documented remove_camera = (delete, fixed "api" ∷ fixed "cameras" ∷ param ∷ [])
documented login = (post, fixed "api" ∷ fixed "login" ∷ [])

-- The method is the documented one, or HEAD where that is GET.
abbrev pub Suits : Endpoint → Method → Type 0
Suits e m = ((documented e).0 ≡ m) ⊎ (((documented e).0 ≡ get) × (m ≡ head))

-- What a route makes of a method: 405, or the endpoint that the table has there.
abbrev Listed : Route → Method → Type 0
Listed r m =
    (by_method m r.methods ≡ method_not_allowed)
    ⊎ ((e : Endpoint) × (by_method m r.methods ≡ handled e)
        × ((documented e).1 ≡ r.pattern)
        × Suits e m)

abbrev AllListed : Route → Type 0
AllListed r = Listed r get × Listed r post × Listed r delete × Listed r head

all_listed : All AllListed build_router
unfolding build_router by_method
all_listed = (
  (
    inr (status, refl, refl, inl refl),
    inl refl,
    inl refl,
    inr (status, refl, refl, inr (refl, refl)),
  ),
  (
    (
      inr (list, refl, refl, inl refl),
      inl refl,
      inl refl,
      inr (list, refl, refl, inr (refl, refl)),
    ),
    (
      (
        inr (export, refl, refl, inl refl),
        inl refl,
        inl refl,
        inr (export, refl, refl, inr (refl, refl)),
      ),
      (
        (
          inr (hls_live, refl, refl, inl refl),
          inl refl,
          inl refl,
          inr (hls_live, refl, refl, inr (refl, refl)),
        ),
        (
          (
            inr (hls_vod, refl, refl, inl refl),
            inl refl,
            inl refl,
            inr (hls_vod, refl, refl, inr (refl, refl)),
          ),
          (
            (
              inr (hls_segment, refl, refl, inl refl),
              inl refl,
              inl refl,
              inr (hls_segment, refl, refl, inr (refl, refl)),
            ),
            (
              (
                inr (hls_player, refl, refl, inl refl),
                inl refl,
                inl refl,
                inr (hls_player, refl, refl, inr (refl, refl)),
              ),
              (
                (
                  inr (vod_player, refl, refl, inl refl),
                  inl refl,
                  inl refl,
                  inr (vod_player, refl, refl, inr (refl, refl)),
                ),
                (
                  (
                    inr (dash_manifest, refl, refl, inl refl),
                    inl refl,
                    inl refl,
                    inr (dash_manifest, refl, refl, inr (refl, refl)),
                  ),
                  (
                    (
                      inr (list_cameras, refl, refl, inl refl),
                      inr (add_camera, refl, refl, inl refl),
                      inl refl,
                      inr (list_cameras, refl, refl, inr (refl, refl)),
                    ),
                    (
                      (inl refl, inl refl, inr (remove_camera, refl, refl, inl refl), inl refl),
                      ((inl refl, inr (login, refl, refl, inl refl), inl refl, inl refl), tt),
                    ),
                  ),
                ),
              ),
            ),
          ),
        ),
      ),
    ),
  ),
)

-- No route has an endpoint for another method.
abbrev NoOther : Route → Type 0
NoOther r = by_method other r.methods ≡ method_not_allowed

no_other : All NoOther build_router
unfolding build_router by_method
no_other = (
  refl,
  (refl, (refl, (refl, (refl, (refl, (refl, (refl, (refl, (refl, (refl, (refl, tt))))))))))),
)

by_each :
    (r : Route) (m : Method) → same_method m options ≡ false → AllListed r → NoOther r → Listed r m
by_each r get plain h k = h.0
by_each r post plain h k = h.1
by_each r delete plain h k = h.2
by_each r head plain h k = h.3
by_each r options plain h k = absurd (ground arith)
by_each r other plain h k = inl k

-- The route of an endpoint of the table.
HasRoute : Endpoint → Type 0
HasRoute e =
    (i : ℕ) × (r : Route) × (get_elem? build_router i ≡ some r)
    × (by_method (documented e).0 r.methods ≡ handled e)
    × (r.pattern ≡ (documented e).1)
    × ((documented e).0 ≡ get → by_method head r.methods ≡ handled e)

route_of : (e : Endpoint) → HasRoute e
unfolding HasRoute build_router by_method
route_of status = (0, _, refl, refl, refl, λ g. refl)
route_of list = (1, _, refl, refl, refl, λ g. refl)
route_of export = (2, _, refl, refl, refl, λ g. refl)
route_of hls_live = (3, _, refl, refl, refl, λ g. refl)
route_of hls_vod = (4, _, refl, refl, refl, λ g. refl)
route_of hls_segment = (5, _, refl, refl, refl, λ g. refl)
route_of hls_player = (6, _, refl, refl, refl, λ g. refl)
route_of vod_player = (7, _, refl, refl, refl, λ g. refl)
route_of dash_manifest = (8, _, refl, refl, refl, λ g. refl)
route_of list_cameras = (9, _, refl, refl, refl, λ g. refl)
route_of add_camera = (9, _, refl, refl, refl, λ g. absurd (ground arith))
route_of remove_camera = (10, _, refl, refl, refl, λ g. absurd (ground arith))
route_of login = (11, _, refl, refl, refl, λ g. absurd (ground arith))

documented_method : (e : Endpoint) → same_method (documented e).0 options ≡ false
documented_method status = refl
documented_method list = refl
documented_method export = refl
documented_method hls_live = refl
documented_method hls_vod = refl
documented_method hls_segment = refl
documented_method hls_player = refl
documented_method vod_player = refl
documented_method dash_manifest = refl
documented_method list_cameras = refl
documented_method add_camera = refl
documented_method remove_camera = refl
documented_method login = refl

module _ (fits : List Part → List String → Bool) where
  find_route-All :
      (P : Route → Type 0) (rs : List Route) (r : Route) (path : List String)
      → All P rs
      → find_route fits path rs ≡ some r
      → P r × (fits r.pattern path ≡ true)
  unfolding find_route
  find_route-All P [] r path h e = absurd (ground arith)
  find_route-All P (x ∷ xs) r path h e = elim (Bool-cases (fits x.pattern path)) [
    | inl t ↦ let same : x ≡ r = ground arith in (subst P same h.0, cc)
    | inr f ↦ find_route-All P xs r path h.1 (ground arith)
  ]

  reached :
      (e : Endpoint) (method : Method) (path : List String) (o : Option Route)
      → find_route fits path build_router ≡ o
      → dispatch fits method path ≡ handled e
      → Suits e method × (fits (documented e).1 path ≡ true)
  unfolding dispatch
  reached e method path o h d = elim (Bool-cases (same_method method options)) [
    | inl t ↦
        let q : preflight ≡ handled e = sym (rw (dispatch, t) refl) ∙ d in absurd (ground arith)
    | inr plain ↦ inside o h plain
  ]
    where
      inside :
          (o : Option Route)
          → find_route fits path build_router ≡ o
          → same_method method options ≡ false
          → Suits e method × (fits (documented e).1 path ≡ true)
      inside none h plain =
          let q : static_file ≡ handled e = sym (rw (dispatch, plain, h) refl) ∙ d in
          absurd (ground arith)
      inside (some r) h plain =
          let (listed, fit) = find_route-All AllListed build_router r path all_listed h in
          let (others, fit) = find_route-All NoOther build_router r path no_other h in
          let here : by_method method r.methods ≡ handled e =
            sym (rw (dispatch, plain, h) refl) ∙ d in
          elim (by_each r method plain listed others) [
            | inl none_for ↦ absurd cc
            | inr (e1, is, doc, suits) ↦
                let same : e1 ≡ e = cc in (subst (λ (x : Endpoint). Suits x method) same suits, cc)
          ]

  module _ (law : (p : List Part) (path : List String) → fits p path ≡ true → Fits p path) where
    -- The router is the table of README.md: a request goes to the handler of an endpoint if and only
    -- if its path fits the path that the table has for the endpoint, and its method is the method
    -- there, or HEAD where that is GET. What fits is decided by axum; what it lets fit is assumed to
    -- agree part by part.
    pub dispatch-documented :
        (e : Endpoint) (method : Method) (path : List String)
        → (dispatch fits method path ≡ handled e)
          ↔ (Suits e method × (fits (documented e).1 path ≡ true))
    unfolding HasRoute
    dispatch-documented e method path =
        (reached e method path (find_route fits path build_router) refl, back)
      where
        back :
            Suits e method × (fits (documented e).1 path ≡ true)
            → dispatch fits method path ≡ handled e
        back (suits, f) =
            let (i, r, there, by, pattern, by_head) = route_of e in
            let fit : fits r.pattern path ≡ true = rw pattern f in
            elim suits [
              | inl m ↦
                  let plain : same_method method options ≡ false = rw m at (documented_method e) in
                  dispatch-route fits law i r method path there fit plain ∙ rw (← m) by
              | inr (g, m) ↦
                  dispatch-route fits law i r method path there fit (rw m refl) ∙ rw m (by_head g)
            ]
