-- ===== src/Store/Admin/Sound.antt =====
-- The operations of internal/store/admin.go keep the tables sound.
use atomhub.Text.{Text}
use atomhub.Server.Invariant.{Maintains, Maintains-fail, Maintains-if, Maintains-change}
use atomhub.Store.Sound.{IsSound}
use atomhub.Store.Sound.Statements.{insert_admin-IsSound}
use atomhub.Store.Admin.{insert_default, ensure_default_admin}

pub ensure_default_admin-Maintains :
    (username hash : Text) → Maintains IsSound (ensure_default_admin username hash)
unfolding ensure_default_admin insert_default
ensure_default_admin-Maintains username hash =
    Maintains-if _ (Maintains-fail _) (Maintains-change _ (λ t s. insert_admin-IsSound s _ _))
