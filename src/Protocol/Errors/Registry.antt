-- ===== src/Protocol/Errors/Registry.antt =====
-- The error registry, in the order of `_ERROR_SPECS` (src/vgen/protocol/errors.py).
use vgen.Base.{ℕ, Option, none, some, List, [], ◌∷◌, ◌++◌}
use vgen.Protocol.Errors.Spec.{ErrorSpec, RetryAction, ErrorOrigin, Responsibility}

abbrev entry : ℕ → ℕ → ErrorOrigin → RetryAction → Responsibility → Option ℕ → ErrorSpec
entry code http_status origin retry responsibility retry_after_ms = record {
  code = code;
  http_status = http_status;
  origin = origin;
  retry_action = retry;
  responsibility = responsibility;
  default_retry_after_ms = retry_after_ms;
}

unfoldable pub access_specs : List ErrorSpec
access_specs =
    entry 100001 401 ErrorOrigin.gateway RetryAction.nothing Responsibility.consumer none
    ∷ entry 100002 401 ErrorOrigin.gateway RetryAction.later Responsibility.consumer none
    ∷ entry 100003 401 ErrorOrigin.gateway RetryAction.nothing Responsibility.consumer none
    ∷ entry 100004 409 ErrorOrigin.gateway RetryAction.nothing Responsibility.consumer none
    ∷ entry 110001 403 ErrorOrigin.gateway RetryAction.nothing Responsibility.consumer none
    ∷ entry 110002 401 ErrorOrigin.gateway RetryAction.nothing Responsibility.consumer none
    ∷ entry 120001 403 ErrorOrigin.gateway RetryAction.nothing Responsibility.consumer none
    ∷ entry 120002 403 ErrorOrigin.gateway RetryAction.nothing Responsibility.consumer none
    ∷ entry 200001 404 ErrorOrigin.gateway RetryAction.nothing Responsibility.consumer none
    ∷ entry 200002 403 ErrorOrigin.gateway RetryAction.nothing Responsibility.consumer none
    ∷ entry 210001 503 ErrorOrigin.broker RetryAction.later Responsibility.platform (some 5000)
    ∷ entry 210002 404 ErrorOrigin.gateway RetryAction.nothing Responsibility.consumer none
    ∷ entry 210003 404 ErrorOrigin.gateway RetryAction.nothing Responsibility.consumer none
    ∷ entry 210004 404 ErrorOrigin.gateway RetryAction.nothing Responsibility.consumer none
    ∷ entry 220001 503 ErrorOrigin.gateway RetryAction.later Responsibility.platform (some 5000)
    ∷ entry 220002 503 ErrorOrigin.worker RetryAction.another_worker Responsibility.provider none
    ∷ entry 220003 409 ErrorOrigin.worker RetryAction.another_worker Responsibility.provider none
    ∷ entry 220004 403 ErrorOrigin.gateway RetryAction.nothing Responsibility.provider none
    ∷ entry 220005 404 ErrorOrigin.gateway RetryAction.nothing Responsibility.consumer none
    ∷ entry 220006 404 ErrorOrigin.gateway RetryAction.nothing Responsibility.consumer none
    ∷ []

unfoldable pub scheduling_specs : List ErrorSpec
scheduling_specs =
    entry 220007 409 ErrorOrigin.gateway RetryAction.nothing Responsibility.consumer none
    ∷ entry 230001 404 ErrorOrigin.gateway RetryAction.nothing Responsibility.consumer none
    ∷ entry 230002 403 ErrorOrigin.gateway RetryAction.nothing Responsibility.consumer none
    ∷ entry 230003 409 ErrorOrigin.gateway RetryAction.nothing Responsibility.consumer none
    ∷ entry 230004 422 ErrorOrigin.gateway RetryAction.nothing Responsibility.consumer none
    ∷ entry 230005 404 ErrorOrigin.gateway RetryAction.nothing Responsibility.consumer none
    ∷ entry 240001 400 ErrorOrigin.gateway RetryAction.nothing Responsibility.consumer none
    ∷ entry 240002 202 ErrorOrigin.gateway RetryAction.later Responsibility.consumer (some 5000)
    ∷ entry 240003 403 ErrorOrigin.gateway RetryAction.nothing Responsibility.consumer none
    ∷ entry 240004 409 ErrorOrigin.gateway RetryAction.nothing Responsibility.consumer none
    ∷ entry 240005 404 ErrorOrigin.gateway RetryAction.nothing Responsibility.consumer none
    ∷ entry 300001 409 ErrorOrigin.gateway RetryAction.nothing Responsibility.consumer none
    ∷ entry 300002 404 ErrorOrigin.gateway RetryAction.nothing Responsibility.consumer none
    ∷ entry 300003 409 ErrorOrigin.gateway RetryAction.nothing Responsibility.consumer none
    ∷ entry 310001 409 ErrorOrigin.gateway RetryAction.another_worker Responsibility.platform none
    ∷ entry 310002 409 ErrorOrigin.gateway RetryAction.rekey_required Responsibility.platform none
    ∷ entry 310003 409 ErrorOrigin.gateway RetryAction.later Responsibility.platform none
    ∷ entry 310004 409 ErrorOrigin.gateway RetryAction.nothing Responsibility.provider none
    ∷ entry 320001 503 ErrorOrigin.executor RetryAction.same_worker Responsibility.provider none
    ∷ entry 320002 422 ErrorOrigin.executor RetryAction.nothing Responsibility.consumer none
    ∷ []

unfoldable pub execution_specs : List ErrorSpec
execution_specs =
    entry 320003 503 ErrorOrigin.executor RetryAction.nothing Responsibility.provider none
    ∷ entry 320004 504 ErrorOrigin.executor RetryAction.another_worker Responsibility.provider none
    ∷ entry 320005 503 ErrorOrigin.executor RetryAction.another_worker Responsibility.provider none
    ∷ entry 320009 503 ErrorOrigin.executor RetryAction.another_worker Responsibility.provider none
    ∷ entry 320006 404 ErrorOrigin.gateway RetryAction.nothing Responsibility.consumer none
    ∷ entry 320007 422 ErrorOrigin.gateway RetryAction.nothing Responsibility.consumer none
    ∷ entry 320008 409 ErrorOrigin.executor RetryAction.nothing Responsibility.unknown none
    ∷ entry 330001 502 ErrorOrigin.worker RetryAction.same_worker Responsibility.platform none
    ∷ entry 330002 502 ErrorOrigin.worker RetryAction.resume_upload Responsibility.platform none
    ∷ entry 330003 404 ErrorOrigin.storage RetryAction.nothing Responsibility.consumer none
    ∷ entry 330004 422 ErrorOrigin.storage RetryAction.nothing Responsibility.platform none
    ∷ entry 340002 403 ErrorOrigin.worker RetryAction.nothing Responsibility.consumer none
    ∷ entry 340003 507 ErrorOrigin.worker RetryAction.nothing Responsibility.provider none
    ∷ entry 340004 409 ErrorOrigin.worker RetryAction.nothing Responsibility.provider none
    ∷ entry 340005 422 ErrorOrigin.worker RetryAction.nothing Responsibility.platform none
    ∷ entry 340006 503 ErrorOrigin.worker RetryAction.later Responsibility.platform (some 5000)
    ∷ entry 340007 409 ErrorOrigin.worker RetryAction.nothing Responsibility.provider none
    ∷ entry 340008 403 ErrorOrigin.worker RetryAction.nothing Responsibility.consumer none
    ∷ entry 340009 422 ErrorOrigin.worker RetryAction.nothing Responsibility.consumer none
    ∷ entry 340010 409 ErrorOrigin.gateway RetryAction.later Responsibility.platform none
    ∷ []

unfoldable pub maintenance_specs : List ErrorSpec
maintenance_specs =
    entry 340011 422 ErrorOrigin.worker RetryAction.nothing Responsibility.consumer none
    ∷ entry 340012 409 ErrorOrigin.worker RetryAction.nothing Responsibility.consumer none
    ∷ entry 340013 500 ErrorOrigin.worker RetryAction.nothing Responsibility.provider none
    ∷ entry 340014 422 ErrorOrigin.worker RetryAction.nothing Responsibility.consumer none
    ∷ entry 340015 409 ErrorOrigin.worker RetryAction.nothing Responsibility.consumer none
    ∷ entry 340016 422 ErrorOrigin.worker RetryAction.nothing Responsibility.consumer none
    ∷ entry 340017 422 ErrorOrigin.worker RetryAction.nothing Responsibility.provider none
    ∷ entry 340018 422 ErrorOrigin.worker RetryAction.nothing Responsibility.consumer none
    ∷ entry 340019 422 ErrorOrigin.worker RetryAction.nothing Responsibility.consumer none
    ∷ entry 340020 422 ErrorOrigin.worker RetryAction.nothing Responsibility.consumer none
    ∷ entry 340021 422 ErrorOrigin.worker RetryAction.nothing Responsibility.consumer none
    ∷ entry 340022 500 ErrorOrigin.worker RetryAction.nothing Responsibility.provider none
    ∷ entry 340023 500 ErrorOrigin.worker RetryAction.nothing Responsibility.provider none
    ∷ entry 400001 422 ErrorOrigin.client RetryAction.nothing Responsibility.unknown none
    ∷ entry 400002 409 ErrorOrigin.client RetryAction.rekey_required Responsibility.consumer none
    ∷ entry 400003 422 ErrorOrigin.client RetryAction.nothing Responsibility.platform none
    ∷ entry 400004 403 ErrorOrigin.client RetryAction.rekey_required Responsibility.consumer none
    ∷ entry 400005 404 ErrorOrigin.gateway RetryAction.nothing Responsibility.consumer none
    ∷ entry 500001 422 ErrorOrigin.gateway RetryAction.nothing Responsibility.provider none
    ∷ entry 500002 409 ErrorOrigin.gateway RetryAction.nothing Responsibility.consumer none
    ∷ []

unfoldable pub platform_specs : List ErrorSpec
platform_specs =
    entry 500003 404 ErrorOrigin.gateway RetryAction.nothing Responsibility.consumer none
    ∷ entry 600001 422 ErrorOrigin.gateway RetryAction.nothing Responsibility.consumer none
    ∷ entry 600002 409 ErrorOrigin.gateway RetryAction.nothing Responsibility.consumer none
    ∷ entry 600003 400 ErrorOrigin.gateway RetryAction.nothing Responsibility.consumer none
    ∷ entry 600004 413 ErrorOrigin.gateway RetryAction.nothing Responsibility.consumer none
    ∷ entry 600005 429 ErrorOrigin.gateway RetryAction.later Responsibility.consumer (some 1000)
    ∷ entry 700001 503 ErrorOrigin.client RetryAction.later Responsibility.platform (some 5000)
    ∷ entry 700002 503 ErrorOrigin.storage RetryAction.later Responsibility.platform (some 5000)
    ∷ entry 700003 503 ErrorOrigin.gateway RetryAction.later Responsibility.platform (some 5000)
    ∷ entry 900001 500 ErrorOrigin.gateway RetryAction.nothing Responsibility.platform none
    ∷ []

-- ERROR_REGISTRY
unfoldable pub error_registry : List ErrorSpec
unfolding access_specs scheduling_specs execution_specs maintenance_specs platform_specs
error_registry =
    access_specs
    ++ (scheduling_specs ++ (execution_specs ++ (maintenance_specs ++ (platform_specs))))
