-- ===== src/Admin/Reports/Sound.antt =====
-- The reports of the admin API keep the tables sound: they only make missing rows of key_state.
use atomhub.Prelude.{ℕ, Bool, true, false, List, [], ◌∷◌, Option, none, some, find?}
use atomhub.Text.{Text}
use atomhub.Types.{
  UpstreamKey, KeyModel, KeyState, KeyStatus, unset, healthy, degraded, cooling_down, disabled,
  RequestLog,
}
use atomhub.Server.{Server}
use atomhub.Server.Invariant.{
  Maintains, Maintains-bind, Maintains-pure, Maintains-if, Maintains-now,
}
use atomhub.Store.Keys.{has_id}
use atomhub.Store.Keys.Sound as KeysSound
use atomhub.Store.State
use atomhub.Store.State.Sound as StateSound
use atomhub.Store.Models.Sound.{list_all-Maintains}
use atomhub.Store.Logs.Sound.{list_recent-Maintains}
use atomhub.Store.DownstreamKeys.Sound as ClientsSound
use atomhub.Store.Stats.{token_stats}
use atomhub.Store.Stats.Sound.{token_stats-Maintains}
use atomhub.Store.Sound.{IsSound}
use atomhub.Admin.Answers.Sound.{or_refuse-Kept}
use atomhub.Admin.Reports.{
  refused, handle_dashboard, state_or_zero, key_items, list_admin_keys, handle_list_keys,
  handle_health, ModelEntry, AdminModelItem, is_over, counts_as_healthy, unless_seen, count_model,
  count_row, count_rows, list_models, handle_models, list_requests, handle_requests,
}

pub handle_dashboard-Kept : (s : Server) → IsSound s.tables → IsSound (handle_dashboard s).1.tables
unfolding handle_dashboard
handle_dashboard-Kept s h =
    or_refuse-Kept refused _ _ (token_stats s)
      (λ stats t k.
        or_refuse-Kept refused _ _ (State.overview t) (λ o u l. l)
          (StateSound.overview-Maintains.at t k))
      (token_stats-Maintains.at s h)

state_or_zero-Maintains : (id : ℕ) → Maintains IsSound (state_or_zero id)
unfolding state_or_zero
state_or_zero-Maintains id = record { at = (StateSound.get-Maintains id).at }

key_items-Maintains :
    (recent : List RequestLog) (keys : List UpstreamKey) → Maintains IsSound (key_items recent keys)
unfolding key_items
key_items-Maintains recent [] = Maintains-pure _
key_items-Maintains recent (key ∷ rest) =
    Maintains-bind (state_or_zero-Maintains key.id)
      (λ state. Maintains-bind (key_items-Maintains recent rest) (λ items. Maintains-pure _))

list_admin_keys-Maintains : Maintains IsSound list_admin_keys
unfolding list_admin_keys
list_admin_keys-Maintains = Maintains-bind KeysSound.list-Maintains (λ all.
    Maintains-bind (list_recent-Maintains 500)
      (λ recent. Maintains-bind (key_items-Maintains recent all) (λ items. Maintains-pure _)))

pub handle_list_keys-Kept : (s : Server) → IsSound s.tables → IsSound (handle_list_keys s).1.tables
unfolding handle_list_keys
handle_list_keys-Kept s h =
    or_refuse-Kept refused _ _ (list_admin_keys s) (λ items t k. k)
      (list_admin_keys-Maintains.at s h)

pub handle_health-Kept : (s : Server) → IsSound s.tables → IsSound (handle_health s).1.tables
unfolding handle_health
handle_health-Kept s h =
    or_refuse-Kept refused _ _ (list_admin_keys s)
      (λ items t k.
        or_refuse-Kept refused _ _ (State.overview t) (λ o u l. l)
          (StateSound.overview-Maintains.at t k))
      (list_admin_keys-Maintains.at s h)

is_over-Maintains : (o : Option ℕ) → Maintains IsSound (is_over o)
unfolding is_over
is_over-Maintains none = Maintains-pure _
is_over-Maintains (some until) = Maintains-bind Maintains-now (λ time. Maintains-pure _)

counts_as_healthy-Maintains : (state : KeyState) → Maintains IsSound (counts_as_healthy state)
unfolding counts_as_healthy
counts_as_healthy-Maintains state = by_status state.status
  where
    by_status :
        (status : KeyStatus)
        → Maintains IsSound (counts_as_healthy (record state { status = status }))
    by_status healthy = is_over-Maintains state.cooldown_until
    by_status unset = is_over-Maintains state.cooldown_until
    by_status degraded = Maintains-pure _
    by_status cooling_down = Maintains-pure _
    by_status disabled = Maintains-pure _

unless_seen-Maintains :
    (seen : Bool) (pair : Text) (new : AdminModelItem) (state : KeyState) (id : ℕ)
    (entries : List ModelEntry)
    → Maintains IsSound (unless_seen seen pair new state id entries)
unfolding unless_seen
unless_seen-Maintains true pair new state id entries = Maintains-pure _
unless_seen-Maintains false pair new state id entries =
    Maintains-bind (counts_as_healthy-Maintains state) (λ b. Maintains-pure _)

count_row-Maintains :
    (o : Option UpstreamKey) (model : Text) (entries : List ModelEntry)
    → Maintains IsSound (count_row o model entries)
unfolding count_row count_model
count_row-Maintains none model entries = Maintains-pure _
count_row-Maintains (some key) model entries =
    Maintains-if key.enabled
      (Maintains-bind (state_or_zero-Maintains key.id)
        (λ state. unless_seen-Maintains _ _ _ state key.id entries))
      (Maintains-pure _)

count_rows-Maintains :
    (all : List UpstreamKey) (rows : List KeyModel) (entries : List ModelEntry)
    → Maintains IsSound (count_rows all rows entries)
unfolding count_rows
count_rows-Maintains all [] entries = Maintains-pure _
count_rows-Maintains all (row ∷ rows) entries =
    Maintains-bind (count_row-Maintains (find? (has_id row.key_id) all) row.model entries)
      (λ counted. count_rows-Maintains all rows counted)

pub handle_models-Kept : (s : Server) → IsSound s.tables → IsSound (handle_models s).1.tables
unfolding handle_models list_models
handle_models-Kept s h =
    or_refuse-Kept refused _ _ (list_models s) (λ items t k. k)
      ((Maintains-bind KeysSound.list-Maintains (λ all. Maintains-bind list_all-Maintains (λ rows.
          Maintains-bind (count_rows-Maintains all rows []) (λ entries. Maintains-pure _)))).at
        s h)

pub handle_requests-Kept :
    (raw_model raw_limit : Text) (s : Server)
    → IsSound s.tables
    → IsSound (handle_requests raw_model raw_limit s).1.tables
unfolding handle_requests list_requests
handle_requests-Kept raw_model raw_limit s h =
    or_refuse-Kept refused _ _ (list_requests raw_model raw_limit s) (λ r t k. k)
      ((Maintains-bind (list_recent-Maintains _) (λ logs.
          Maintains-bind KeysSound.list-Maintains
            (λ all. Maintains-bind ClientsSound.list-Maintains (λ clients. Maintains-pure _)))).at
        s h)
