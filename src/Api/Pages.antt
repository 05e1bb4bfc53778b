-- ===== src/Api/Pages.antt =====
-- internal/api/api.go: the handlers that only read, `healthz`, `getConfig`, `index` and `loginPage`.
-- A file of the embedded web directory is its bytes, `none` if it is missing.
use lukscrypt.Prelude.{Text, text, Option, none, some, List}
use lukscrypt.Api.Reply.{Reply, done, refusal}

-- The version, unless the database does not answer.
unfoldable pub healthz : (ping : Option Text) → (version : Text) → Reply Text
healthz none version = done version
healthz (some e) version = refusal 503 (text "database unavailable")

-- The allowed storage and mount directories.
unfoldable pub get_config : (storage_dirs mount_dirs : List Text) → Reply (List Text × List Text)
get_config storage_dirs mount_dirs = done (storage_dirs, mount_dirs)

serve_file : Option Text → Reply Text
serve_file none = refusal 404 (text "not found")
serve_file (some bytes) = done bytes

unfoldable pub index : (read_file : Text → Option Text) → Reply Text
unfolding serve_file
index read_file = serve_file (read_file (text "web/index.html"))

unfoldable pub login_page : (read_file : Text → Option Text) → Reply Text
unfolding serve_file
login_page read_file = serve_file (read_file (text "web/login.html"))
