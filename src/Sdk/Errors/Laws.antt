-- ===== src/Sdk/Errors/Laws.antt =====
-- The server's statuses and the client's codes (examples/minimal-server/src/server.ts).
use ascended_core.Base.{◌≡◌, refl, List, [], ◌∷◌, All}
use ascended_core.Core.Errors.{
  ErrorCode, validation, not_found, unauthorized, forbidden, conflict, rate_limited, unsupported,
  privacy_blocked,
}
use ascended_core.Sdk.Errors.{status_code_to_error_code}
use ascended_core.Server.Http.{status_for_code}

-- the codes that the two sides share
abbrev shared_codes : List ErrorCode
shared_codes =
    validation ∷ unauthorized ∷ forbidden ∷ not_found ∷ unsupported ∷ conflict ∷ rate_limited ∷ []

-- For each of the seven codes that both sides map, the client reads the server's status back as the
-- code; a privacy block is answered as 403, which the client reads as forbidden.
pub status_code_to_error_code-status_for_code :
    All (λ code. status_code_to_error_code (status_for_code code) ≡ code) shared_codes
    × (status_code_to_error_code (status_for_code privacy_blocked) ≡ forbidden)
unfolding status_code_to_error_code status_for_code
status_code_to_error_code-status_for_code =
    ((refl, (refl, (refl, (refl, (refl, (refl, (refl, tt))))))), refl)
