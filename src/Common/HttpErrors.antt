-- ===== src/Common/HttpErrors.antt =====
-- The codes of common/errors/domain.errors.ts, and the answers of
-- common/filters/domain-exception.filter.ts. The details of an error are left out.
use vaultline.Prelude.{ℕ, Option, String}
use vaultline.Common.{
  DomainError, not_found, business_rule, invalid_state_transition, fraud_suspected,
  dependency_unavailable, unexpected, Reason,
}

pub code : DomainError → String
code (not_found r) = "NOT_FOUND"
code (business_rule r) = "BUSINESS_RULE_VIOLATION"
code (invalid_state_transition r) = "INVALID_STATE_TRANSITION"
code (fraud_suspected r) = "FRAUD_SUSPECTED"
code (dependency_unavailable r) = "DEPENDENCY_UNAVAILABLE"
code unexpected = "INTERNAL_ERROR"

pub http_status : DomainError → ℕ
http_status (not_found r) = 404
http_status (business_rule r) = 422
http_status (invalid_state_transition r) = 409
http_status (fraud_suspected r) = 403
http_status (dependency_unavailable r) = 503
http_status unexpected = 500

-- What is thrown: a domain error, an error of the framework with its status and message, or
-- anything else.
pub data Exception : Type 0 where
  domain : DomainError → Exception
  framework : ℕ → Option String → Exception
  unknown : Exception

pub data Message : Type 0 where
  of_domain : Reason → Message
  of_framework : Option String → Message
  something_went_wrong : Message

-- The answer to a request: its status, and the `error` and the `message` of its body.
pub record ErrorResponse : Type 0 where
  pub status : ℕ
  pub error : String
  pub message : Message

error_message : DomainError → Message
error_message (not_found r) = of_domain r
error_message (business_rule r) = of_domain r
error_message (invalid_state_transition r) = of_domain r
error_message (fraud_suspected r) = of_domain r
error_message (dependency_unavailable r) = of_domain r
error_message unexpected = something_went_wrong

-- `DomainExceptionFilter.catch`
pub catch : Exception → ErrorResponse
unfolding code http_status error_message
catch (domain e) = record { status = http_status e; error = code e; message = error_message e }
catch (framework status message) = record {
  status = status;
  error = "HTTP_ERROR";
  message = of_framework message;
}
catch unknown = record { status = 500; error = "INTERNAL_ERROR"; message = something_went_wrong }
