-- ===== src/Config/Examples.antt =====
-- A configuration from an environment with one variable.
use atomhub.Prelude.{[], if◌then◌else◌, list_eq}
use atomhub.Text.{Text, codes}
use atomhub.Types.{err, message}
use atomhub.Config.{load}
use atomhub.Config.Valid.{OnSuccess, IsValid, load-IsValid}

abbrev lookup : Text → Text
lookup name = if list_eq name (codes "ATOMHUB_DOWNSTREAM_KEY_SECRET") then codes " secret " else []

load-IsValid_example : OnSuccess IsValid (load lookup (λ raw. err (message (codes "bad duration"))))
load-IsValid_example = load-IsValid lookup (λ raw. err (message (codes "bad duration")))
