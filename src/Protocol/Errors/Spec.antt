-- ===== src/Protocol/Errors/Spec.antt =====
-- The shape of a registered error (`ErrorSpec` and its enums, src/vgen/protocol/errors.py). The
-- message, which no code reads, is left out.
use vgen.Base.{ℕ, Bool, true, false, Option}

pub data RetryAction : Type 0 where
  nothing same_worker another_worker later rekey_required resume_upload : RetryAction

pub data ErrorOrigin : Type 0 where
  client gateway broker worker executor storage : ErrorOrigin

pub data Responsibility : Type 0 where
  consumer provider platform unknown : Responsibility

pub record ErrorSpec : Type 0 where
  pub code : ℕ
  pub http_status : ℕ
  pub origin : ErrorOrigin
  pub retry_action : RetryAction
  pub responsibility : Responsibility
  pub default_retry_after_ms : Option ℕ

unfoldable pub retryable : ErrorSpec → Bool
retryable s = elim s.retry_action [ RetryAction.nothing ↦ false | _ ↦ true ]
