-- ===== src/Server/ErrorResponses/Statuses.antt =====
-- Which statuses errors are answered with.
use dokhna_tech_zatca.Prelude.{ℕ, ◌≤◌, ◌<◌, ◌≡◌, ◌≢◌, ◌⊎◌, Option, none, some, arith}
use dokhna_tech_zatca.Prelude.Text.{Text}
use dokhna_tech_zatca.Errors.{
  ZatcaError, ApiError, api_error, auth_error, server_error, plain_error, registry_error,
  RegistryErrorCode,
}
use dokhna_tech_zatca.Server.ErrorResponses.{
  map_error_to_response, api_response, api_status, plain_status, registry_error_status, make_body,
}

abbrev IsErrorStatus : ℕ → Type 0
IsErrorStatus status = (400 ≤ status) × (status < 600)

-- The hints that a throw site may set: 401 or 403 on an auth error, an error status on others.
abbrev pub IsHinted : ZatcaError → Type 0
IsHinted (auth_error hint m) = (hint ≡ 401) ⊎ (hint ≡ 403)
IsHinted (server_error (some hint) m) = IsErrorStatus hint
IsHinted _ = Unit

registry_error_status-bounds :
    (code : Option RegistryErrorCode) (m : Text) → IsErrorStatus (registry_error_status code m)
unfolding registry_error_status
registry_error_status-bounds (some _) m = ground arith
registry_error_status-bounds none m = ground arith

api_status-bounds :
    (n : ℕ)
    → IsErrorStatus (api_status n)
      × (api_status n ≢ 401)
      × (api_status n ≢ 403)
      × (api_status n ≢ 429)
unfolding api_status
api_status-bounds n = ground arith

plain_status-bounds : (stamped : Option ℕ) → IsErrorStatus (plain_status stamped)
unfolding plain_status
plain_status-bounds stamped = ground arith

-- Every thrown value, with hints as the throw sites set them, is answered with a status of 400
-- to 599, and an API error of the gateway, whatever its own status, never with 401, 403 or 429.
pub map_error_to_response-bounds :
    (e : ZatcaError)
    → IsHinted e
    → let status = (map_error_to_response e).status_code in
      (400 ≤ status)
      × (status < 600)
      × ((a : ApiError) → e ≡ api_error a → (status ≢ 401) × (status ≢ 403) × (status ≢ 429))
unfolding map_error_to_response make_body api_response
map_error_to_response-bounds (api_error b) h =
    let (bounds, p, q, r) = api_status-bounds b.status_code in
    (bounds.0, bounds.1, λ a e. (p, q, r))
map_error_to_response-bounds (auth_error hint m) h =
    (ground arith, ground arith, λ a e. absurd (cc))
map_error_to_response-bounds (registry_error code m) h =
    let (low, high) = registry_error_status-bounds code m in (low, high, λ a e. absurd (cc))
map_error_to_response-bounds (server_error none m) h =
    (ground arith, ground arith, λ a e. absurd (cc))
map_error_to_response-bounds (server_error (some hint) m) h = (h.0, h.1, λ a e. absurd (cc))
map_error_to_response-bounds (plain_error name stamped m) h =
    let (low, high) = plain_status-bounds stamped in (low, high, λ a e. absurd (cc))
map_error_to_response-bounds _ h = (ground arith, ground arith, λ a e. absurd (cc))
