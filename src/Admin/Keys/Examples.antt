-- ===== src/Admin/Keys/Examples.antt =====
-- The admin API on the sample server.
use atomhub.Prelude.{◌≡◌, refl, inl, false, [], none, some}
use atomhub.Text.{codes, trim_space}
use atomhub.Samples.{sample, key_one}
use atomhub.Admin.Payloads.{KeyPayload, KeyUpdatePayload, to_upstream_key, merge_into}
use atomhub.Admin.Payloads.Ready.{OnSuccess, IsReady, to_upstream_key-IsReady, merge_into-IsReady}
use atomhub.Admin.Keys.{delete_id}
use atomhub.Admin.Keys.Removal.{Deleted, delete_id-Deleted}

delete_id-Deleted_example : Deleted 1 sample (delete_id 1 sample)
delete_id-Deleted_example = delete_id-Deleted 1 sample

abbrev payload : KeyPayload
payload = record {
  name = codes " main ";
  provider = codes "OpenAI";
  base_url = [];
  api_key = codes "sk-1";
  enabled = none;
}

to_upstream_key-IsReady_example : OnSuccess IsReady (to_upstream_key payload)
to_upstream_key-IsReady_example = to_upstream_key-IsReady payload

abbrev changes : KeyUpdatePayload
changes = record {
  name = some (codes "other");
  provider = some (codes "gemini");
  base_url = some [];
  api_key = none;
  enabled = some false;
}

key_one-IsReady : IsReady (record key_one { base_url = codes "https://x" })
unfolding trim_space
key_one-IsReady = record {
  name = (refl, refl);
  api_key = (refl, refl);
  provider = inl refl;
  base_url = refl;
}

merge_into-IsReady_example :
    OnSuccess
      (λ key. IsReady key × (key.id ≡ 1))
      (merge_into changes (record key_one { base_url = codes "https://x" }))
merge_into-IsReady_example =
    merge_into-IsReady changes (record key_one { base_url = codes "https://x" }) key_one-IsReady
