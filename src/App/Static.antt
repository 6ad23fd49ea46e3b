-- ===== src/App/Static.antt =====
-- `spaHandler` of internal/app/spa.go: the files of the web frontend, and its index page for every other
-- path. A path is given as its segments and is clean, as in `App/Routes`; what is on the disk is a
-- parameter. Serving a file, with net/http's redirections of its own, is net/http's.
use atomhub.Prelude.{Bool, false, ◌||◌, List, [], ◌∷◌, if◌then◌else◌, list_eq}
use atomhub.Text.{Text, codes, is_empty}

pub data Page : Type 0 where
  not_found index : Page
  file : List Text → Page

-- below /admin/ or /v1/, or /healthz
reserved : List Text → Bool
reserved [] = false
reserved (t ∷ []) = list_eq t (codes "healthz")
reserved (t ∷ u ∷ ts) = list_eq t (codes "admin") || list_eq t (codes "v1")

-- filepath.Clean and TrimPrefix: of a clean path, only a trailing slash goes
clean_path : List Text → List Text
clean_path [] = []
clean_path (t ∷ []) = if is_empty t then [] else t ∷ []
clean_path (t ∷ u ∷ ts) = t ∷ clean_path (u ∷ ts)

by_file : (List Text → Bool) → List Text → Page
by_file is_file [] = index
by_file is_file (t ∷ ts) = if is_file (t ∷ ts) then file (t ∷ ts) else index

-- `is_file` says what os.Stat finds: there, and not a directory.
pub spa_handler : (List Text → Bool) → List Text → Page
unfolding reserved clean_path by_file
spa_handler is_file path = if reserved path then not_found else by_file is_file (clean_path path)
