-- ===== src/Api/Players.antt =====
-- The two player pages of src/api.rs: `handle_hls_player` and `handle_vod_player`. A page is its text
-- with the values that `format!` inserts, which are inserted as they are.
use oasis_nvr.Prelude.{◌≡◌, refl, Option, List, [], ◌∷◌}
use Prim.Native.String.{String}
use mathlib.Core.Option.{get_or}
use oasis_nvr.Utf8.{Text}
use oasis_nvr.Api.{Reply, html, answer}

pub data Piece : Type 0 where
  text : String → Piece
  value : Text → Piece

abbrev pub Html : Type 0
Html = List Piece

unfoldable pub hls_page : Text → Html
hls_page camera_id =
    text "<!DOCTYPE html>\n"
    ∷ text "<html lang=\"en\">\n"
    ∷ text "<head>\n"
    ∷ text "<meta charset=\"utf-8\">\n"
    ∷ text "<meta name=\"viewport\" content=\"width=device-width,initial-scale=1\">\n"
    ∷ text "<title>NVR — "
    ∷ value camera_id
    ∷ text "</title>\n"
    ∷ text "<script src=\"https://cdn.jsdelivr.net/npm/hls.js@1\"></script>\n"
    ∷ text "<style>\n"
    ∷ text "  * { margin:0; padding:0; box-sizing:border-box; }\n"
    ∷ text "  body { background:#111; display:flex; flex-direction:column;\n"
    ∷ text "         align-items:center; justify-content:center; min-height:100vh;\n"
    ∷ text "         font-family:system-ui,sans-serif; color:#eee; }\n"
    ∷ text "  h1 { font-size:1.2rem; margin-bottom:12px; opacity:.7; }\n"
    ∷ text "  video { width:90vw; max-width:1280px; border-radius:8px;\n"
    ∷ text "           background:#000; }\n"
    ∷ text "  #status { font-size:.85rem; margin-top:8px; opacity:.5; }\n"
    ∷ text "</style>\n"
    ∷ text "</head>\n"
    ∷ text "<body>\n"
    ∷ text "<h1>📹 "
    ∷ value camera_id
    ∷ text "</h1>\n"
    ∷ text "<video id=\"v\" controls autoplay muted playsinline></video>\n"
    ∷ text "<div id=\"status\">Connecting…</div>\n"
    ∷ text "<script>\n"
    ∷ text "const src = \"live.m3u8\";\n"
    ∷ text "const video = document.getElementById(\"v\");\n"
    ∷ text "const status = document.getElementById(\"status\");\n"
    ∷ text "\n"
    ∷ text "if (Hls.isSupported()) {\n"
    ∷ text "  const hls = new Hls({\n"
    ∷ text "    liveSyncDurationCount: 1,\n"
    ∷ text "    liveMaxLatencyDurationCount: 3,\n"
    ∷ text "    enableWorker: true,\n"
    ∷ text "  });\n"
    ∷ text "  hls.loadSource(src);\n"
    ∷ text "  hls.attachMedia(video);\n"
    ∷ text "  hls.on(Hls.Events.MANIFEST_PARSED, () => {\n"
    ∷ text "    status.textContent = \"Playing (HLS.js)\";\n"
    ∷ text "    video.play().catch(() => {});\n"
    ∷ text "  });\n"
    ∷ text "  hls.on(Hls.Events.ERROR, (_, data) => {\n"
    ∷ text "    status.textContent = \"Error: \" + data.details;\n"
    ∷ text "    if (data.fatal) {\n"
    ∷ text "      if (data.type === Hls.ErrorTypes.NETWORK_ERROR) {\n"
    ∷ text "        status.textContent += \" — retrying…\";\n"
    ∷ text "        setTimeout(() => hls.startLoad(), 3000);\n"
    ∷ text "      }\n"
    ∷ text "    }\n"
    ∷ text "  });\n"
    ∷ text "} else if (video.canPlayType(\"application/vnd.apple.mpegurl\")) {\n"
    ∷ text "  // Safari native HLS\n"
    ∷ text "  video.src = src;\n"
    ∷ text "  video.addEventListener(\"loadedmetadata\", () => {\n"
    ∷ text "    status.textContent = \"Playing (native)\";\n"
    ∷ text "    video.play().catch(() => {});\n"
    ∷ text "  });\n"
    ∷ text "} else {\n"
    ∷ text "  status.textContent = \"HLS not supported in this browser\";\n"
    ∷ text "}\n"
    ∷ text "</script>\n"
    ∷ text "</body>\n"
    ∷ text "</html>"
    ∷ []

unfoldable pub vod_page : Text → Text → Html
vod_page camera_id qs =
    text "<!DOCTYPE html>\n"
    ∷ text "<html lang=\"en\">\n"
    ∷ text "<head>\n"
    ∷ text "<meta charset=\"utf-8\">\n"
    ∷ text "<meta name=\"viewport\" content=\"width=device-width,initial-scale=1\">\n"
    ∷ text "<title>NVR VOD — "
    ∷ value camera_id
    ∷ text "</title>\n"
    ∷ text "<script src=\"https://cdn.jsdelivr.net/npm/hls.js@1\"></script>\n"
    ∷ text "<style>\n"
    ∷ text "  * { margin:0; padding:0; box-sizing:border-box; }\n"
    ∷ text "  body { background:#111; display:flex; flex-direction:column;\n"
    ∷ text "         align-items:center; justify-content:center; min-height:100vh;\n"
    ∷ text "         font-family:system-ui,sans-serif; color:#eee; }\n"
    ∷ text "  h1 { font-size:1.2rem; margin-bottom:12px; opacity:.7; }\n"
    ∷ text "  video { width:90vw; max-width:1280px; border-radius:8px;\n"
    ∷ text "           background:#000; }\n"
    ∷ text "  #status { font-size:.85rem; margin-top:8px; opacity:.5; }\n"
    ∷ text "</style>\n"
    ∷ text "</head>\n"
    ∷ text "<body>\n"
    ∷ text "<h1>🎬 "
    ∷ value camera_id
    ∷ text " — VOD</h1>\n"
    ∷ text "<video id=\"v\" controls autoplay muted playsinline></video>\n"
    ∷ text "<div id=\"status\">Loading…</div>\n"
    ∷ text "<script>\n"
    ∷ text "const src = \"../vod.m3u8?"
    ∷ value qs
    ∷ text "\";\n"
    ∷ text "const video = document.getElementById(\"v\");\n"
    ∷ text "const status = document.getElementById(\"status\");\n"
    ∷ text "\n"
    ∷ text "if (Hls.isSupported()) {\n"
    ∷ text "  const hls = new Hls({ \n"
    ∷ text "    enableWorker: true,\n"
    ∷ text "    startFragPrefetch: true\n"
    ∷ text "  });\n"
    ∷ text "  hls.loadSource(src);\n"
    ∷ text "  hls.attachMedia(video);\n"
    ∷ text "  hls.on(Hls.Events.MANIFEST_PARSED, () => {\n"
    ∷ text "    status.textContent = \"Playing (HLS.js)\";\n"
    ∷ text "    video.play().catch(() => {});\n"
    ∷ text "  });\n"
    ∷ text "  hls.on(Hls.Events.ERROR, (_, data) => {\n"
    ∷ text "    status.textContent = \"Error: \" + data.details;\n"
    ∷ text "  });\n"
    ∷ text "} else if (video.canPlayType(\"application/vnd.apple.mpegurl\")) {\n"
    ∷ text "  video.src = src;\n"
    ∷ text "  video.addEventListener(\"loadedmetadata\", () => {\n"
    ∷ text "    status.textContent = \"Playing (native)\";\n"
    ∷ text "    video.play().catch(() => {});\n"
    ∷ text "  });\n"
    ∷ text "} else {\n"
    ∷ text "  status.textContent = \"HLS not supported in this browser\";\n"
    ∷ text "}\n"
    ∷ text "</script>\n"
    ∷ text "</body>\n"
    ∷ text "</html>"
    ∷ []

unfoldable pub handle_hls_player : Text → Reply Html
handle_hls_player camera_id = answer html (hls_page camera_id)

-- `raw_query` is what the request has behind the question mark.
unfoldable pub handle_vod_player : Text → Option Text → Reply Html
handle_vod_player camera_id raw_query = answer html (vod_page camera_id (get_or raw_query []))

-- The values in a page.
abbrev pub values : Html → List Text
values [] = []
values (text s ∷ ps) = values ps
values (value t ∷ ps) = t ∷ values ps

-- Whatever the camera's id in the path and the query are, the pages have them unescaped: the id
-- in the title and in the heading, and the query in the script.
pub page_values :
    (camera_id qs : Text)
    → (values (hls_page camera_id) ≡ camera_id ∷ camera_id ∷ [])
      × (values (vod_page camera_id qs) ≡ camera_id ∷ camera_id ∷ qs ∷ [])
unfolding hls_page vod_page
page_values camera_id qs = (refl, refl)
