-- ===== src/Admin/Answers/Sound.antt =====
-- A handler that answers an error with a status keeps the tables sound where its parts do.
use atomhub.Prelude.{ℕ}
use atomhub.Text.{Text}
use atomhub.Types.{Error, Result, ok, err}
use atomhub.Server.{Server}
use atomhub.Store.Sound.{IsSound}
use atomhub.Admin.Answers.{Handler, or_refuse}

pub or_refuse-Kept :
    {R A : Type 0} (refused : ℕ → Text → R) (status : Error → ℕ) (k : A → Handler R)
    (r : Result A × Server)
    → ((a : A) (t : Server) → IsSound t.tables → IsSound (k a t).1.tables)
    → IsSound r.1.tables
    → IsSound (or_refuse refused status k r).1.tables
unfolding or_refuse
or_refuse-Kept refused status k (err e, s) f h = h
or_refuse-Kept refused status k (ok a, s) f h = f a s h
