-- ===== src/Api/Vms/Http.antt =====
-- `CreateVM` of internal/api/server/vm_handlers.go over the client of internal/kweb/client.go.
use dcm_kcli_provider.Prelude.{
  ℕ, String, ◌≡◌, false, ◌&&◌, Option, none, some, leb, ltb, if◌then◌else◌,
}
use dcm_kcli_provider.Prelude.Result.{Result, ok, err}
use dcm_kcli_provider.Kweb.Parse.Conflict.{reason_says}
use dcm_kcli_provider.Kweb.Client.{Codec, Client}
use dcm_kcli_provider.Api.Server.{Server}

-- No answer, one whose body cannot be read, or one whose status is not a success.
abbrev pub IsRefusal : Option (ℕ × Result String String) → Type 0
IsRefusal none = Unit
IsRefusal (some (status, err m)) = Unit
IsRefusal (some (status, ok payload)) = (leb 200 status && ltb status 300) ≡ false

-- The status that the provider's client gets.
abbrev pub status_for : Codec → Option (ℕ × Result String String) → ℕ
status_for J none = 502
status_for J (some (status, err m)) = 500
status_for J (some (status, ok payload)) = if reason_says (J.structured payload) then 409 else 500
