-- ===== src/Store/Migrate/Examples.antt =====
-- The migration of a file that has the log alone, without the column for the clients.
use atomhub.Prelude.{refl, inl, inr, [], ◌∷◌, list_eq}
use atomhub.Text.{Text, codes}
use atomhub.Server.{Server, empty_server}
use atomhub.Server.Outcome.{Outcome}
use atomhub.Store.Rows.{exists_where}
use atomhub.Schema.{Column, Schema, columns_of}
use atomhub.Store.Migrate.{migrate}
use atomhub.Store.Migrate.Grew.{Grew}
use atomhub.Store.Migrate.Complete.{IsEarlier}
use atomhub.Store.Migrate.Columns.{ServesStores, migrate-ServesStores}

abbrev number : Text → Column
number name = record { name = name; definition = codes "integer not null default 0" }

abbrev old_log : Schema
old_log =
    record {
      name = codes "request_logs";
      columns =
          number (codes "id")
          ∷ number (codes "key_id")
          ∷ number (codes "model")
          ∷ number (codes "prompt_tokens")
          ∷ number (codes "completion_tokens")
          ∷ number (codes "total_tokens")
          ∷ number (codes "latency_ms")
          ∷ number (codes "status")
          ∷ number (codes "error_message")
          ∷ number (codes "created_at")
          ∷ [];
      constraints = [];
    }
    ∷ []

old_log-IsEarlier : IsEarlier old_log
unfolding exists_where list_eq columns_of
old_log-IsEarlier = (
  inl refl,
  (
    inl refl,
    (
      inl refl,
      (
        inl refl,
        (
          inl refl,
          (
            inr (
              refl,
              (refl, (refl, (refl, (refl, (refl, (refl, (refl, (refl, (refl, (refl, tt)))))))))),
            ),
            tt,
          ),
        ),
      ),
    ),
  ),
)

abbrev old_file : Server
old_file = record empty_server { schema = old_log }

migrate-ServesStores_example :
    Outcome
      (λ e t. Grew old_file t)
      (λ u t. Grew old_file t × ServesStores t.schema)
      migrate
      old_file
migrate-ServesStores_example = migrate-ServesStores old_file old_log-IsEarlier
