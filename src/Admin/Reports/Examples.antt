-- ===== src/Admin/Reports/Examples.antt =====
-- The requests of the sample server, as the admin API reports them.
use atomhub.Prelude.{◌≡◌, ◌⊎◌}
use atomhub.Text.{codes, trim_space}
use atomhub.Types.{error_text, database}
use atomhub.Server.Outcome.{Untouched}
use atomhub.Samples.{busy}
use atomhub.Admin.Reports.{refused, request_limit, handle_requests}
use atomhub.Admin.Reports.Requests.{Answered, handle_requests-Requested}

handle_requests-Requested_example :
    (Answered
        (trim_space (codes " gpt"))
        (request_limit (codes "900"))
        busy
        (handle_requests (codes " gpt") (codes "900") busy).0
      ⊎ ((handle_requests (codes " gpt") (codes "900") busy).0 ≡ refused 500 (error_text database)))
    × Untouched busy (handle_requests (codes " gpt") (codes "900") busy).1
handle_requests-Requested_example = handle_requests-Requested (codes " gpt") (codes "900") busy
