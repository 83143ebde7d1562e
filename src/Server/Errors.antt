-- ===== src/Server/Errors.antt =====
-- The errors that internal/service lets out.
use xiuxian.Base.{◌<◌, ◌≡◌, ◌⊎◌, inl, inr, refl, arith}
use xiuxian.World.Model.{
  Error, conflict, invalid, unauthenticated, not_alive, idempotency_key, not_found, forbidden,
  target_ineligible, rate_limited, stale_command, hash_failure, token_failure, store_failure,
  nil_dereference, cancelled_call,
}
use xiuxian.Server.Fault.{
  map_error, service_error, error_text, error_bad_request, error_unauthorized, error_not_found,
  error_forbidden, error_precondition_failed, error_rate_limited, error_internal,
}

-- The two ways in which the server answers an error of the authority: writeServiceError has the
-- code and the text of mapError, below 500, or both answer 500 with a text that tells nothing, or
-- mapError says 403 or 412 and writeServiceError answers that error as an internal one, with 500
-- and the same text that tells nothing.
pub service_error-map_error :
    (e : Error)
    → ((service_error e ≡ ((map_error e).code, (map_error e).message)) × ((map_error e).code < 500))
      ⊎ ((service_error e ≡ (500, "internal error"))
          × (((map_error e).code ≡ 500) × ((map_error e).message ≡ "internal error")))
      ⊎ ((service_error e ≡ (500, "internal error"))
          × (((map_error e).code ≡ 403) ⊎ ((map_error e).code ≡ 412)))
unfolding service_error map_error error_text error_bad_request error_unauthorized error_not_found
    error_forbidden error_precondition_failed error_rate_limited error_internal
service_error-map_error invalid = inl (refl, omega arith)
service_error-map_error unauthenticated = inl (refl, omega arith)
service_error-map_error idempotency_key = inl (refl, omega arith)
service_error-map_error not_found = inl (refl, omega arith)
service_error-map_error rate_limited = inl (refl, omega arith)
service_error-map_error forbidden = inr (inr (refl, inl refl))
service_error-map_error target_ineligible = inr (inr (refl, inl refl))
service_error-map_error conflict = inr (inr (refl, inr refl))
service_error-map_error not_alive = inr (inr (refl, inr refl))
service_error-map_error stale_command = inr (inr (refl, inr refl))
service_error-map_error hash_failure = inr (inl (refl, (refl, refl)))
service_error-map_error token_failure = inr (inl (refl, (refl, refl)))
service_error-map_error store_failure = inr (inl (refl, (refl, refl)))
service_error-map_error nil_dereference = inr (inl (refl, (refl, refl)))
service_error-map_error cancelled_call = inr (inl (refl, (refl, refl)))
