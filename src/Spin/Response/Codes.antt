-- ===== src/Spin/Response/Codes.antt =====
-- The table of reason strings against the enumerators.
use arachnida.Base.{
  ℕ, [], Bytes, some, ◌≡◌, ◌≢◌, ◌⊎◌, inl, inr, refl, Result, throw, null_dereference, require,
  ◌>>=◌, ◌∙◌,
}
use arachnida.Spin.Response.{
  StatusCode, continue, switching_protocols, ok, created, accepted, non_authoritive_information,
  no_content, reset_content, partial_content, multiple_choices, moved_permanently, found, see_other,
  not_modified, use_proxy, temporary_redirect, bad_request, unauthorized, payment_required,
  forbidden, not_found, method_not_allowed, not_acceptable, proxy_authentication_required,
  request_time_out, conflict, gone, length_required, precondition_failed, request_entity_too_large,
  request_uri_too_large, unsupported_media_type, requested_change_not_satisfiable,
  expectation_failed, internal_server_error, not_implemented, bad_gateway, service_unavailable,
  gateway_time_out, http_version_not_supported, to_number, reason_string_of, make_response_with,
  make_response,
}

abbrev Described : ℕ → Type 0
Described n = (reason : Bytes) × (reason_string_of n ≡ some reason) × (reason ≢ [])

described : (s : StatusCode) → (s ≡ temporary_redirect) ⊎ Described (to_number s)
unfolding to_number reason_string_of
described continue = inr (_, refl, cc)
described switching_protocols = inr (_, refl, cc)
described ok = inr (_, refl, cc)
described created = inr (_, refl, cc)
described accepted = inr (_, refl, cc)
described non_authoritive_information = inr (_, refl, cc)
described no_content = inr (_, refl, cc)
described reset_content = inr (_, refl, cc)
described partial_content = inr (_, refl, cc)
described multiple_choices = inr (_, refl, cc)
described moved_permanently = inr (_, refl, cc)
described found = inr (_, refl, cc)
described see_other = inr (_, refl, cc)
described not_modified = inr (_, refl, cc)
described use_proxy = inr (_, refl, cc)
described temporary_redirect = inl refl
described bad_request = inr (_, refl, cc)
described unauthorized = inr (_, refl, cc)
described payment_required = inr (_, refl, cc)
described forbidden = inr (_, refl, cc)
described not_found = inr (_, refl, cc)
described method_not_allowed = inr (_, refl, cc)
described not_acceptable = inr (_, refl, cc)
described proxy_authentication_required = inr (_, refl, cc)
described request_time_out = inr (_, refl, cc)
described conflict = inr (_, refl, cc)
described gone = inr (_, refl, cc)
described length_required = inr (_, refl, cc)
described precondition_failed = inr (_, refl, cc)
described request_entity_too_large = inr (_, refl, cc)
described request_uri_too_large = inr (_, refl, cc)
described unsupported_media_type = inr (_, refl, cc)
described requested_change_not_satisfiable = inr (_, refl, cc)
described expectation_failed = inr (_, refl, cc)
described internal_server_error = inr (_, refl, cc)
described not_implemented = inr (_, refl, cc)
described bad_gateway = inr (_, refl, cc)
described service_unavailable = inr (_, refl, cc)
described gateway_time_out = inr (_, refl, cc)
described http_version_not_supported = inr (_, refl, cc)

make_response_lem :
    (protocol : Bytes) (s : StatusCode)
    → make_response protocol s ≡ (
        require null_dereference (reason_string_of (to_number s)) >>= λ reason.
        Result.ok (make_response_with protocol (to_number s) reason))
unfolding make_response
make_response_lem protocol s = refl

make_response-temporary_redirect :
    (protocol : Bytes) → make_response protocol temporary_redirect ≡ throw null_dereference
unfolding make_response
make_response-temporary_redirect protocol = refl

-- Every enumerator but one has a reason string, and makes a response with its own number. The one is
-- `temporary_redirect`: its entry of the table is null.
pub make_response_cases :
    (protocol : Bytes) (s : StatusCode)
    → ((s ≡ temporary_redirect) × (make_response protocol s ≡ throw null_dereference))
      ⊎ ((reason : Bytes) × (make_response protocol s
            ≡ Result.ok (make_response_with protocol (to_number s) reason))
          × (reason ≢ []))
make_response_cases protocol s = elim (described s) [
  | inl e ↦ inl (e, rw e (make_response-temporary_redirect protocol))
  | inr (reason, e, ne) ↦ inr (reason, make_response_lem protocol s ∙ rw e, ne)
]
