-- ===== src/Webhooks/Samples.antt =====
-- An endpoint that answers at the second call, and the theorem at it.
use jobflow_project.Common.{Bool, Text, [], refl, some, text, true, ℕ, ◌==◌, ◌∷◌, ◌≡◌}
use jobflow_project.Webhooks.{
  WebhookEvent, run_failed, WebhookEndpoint, delivered, attempt_from, dispatch,
}
use jobflow_project.Webhooks.Attempts.{IsAttempted, dispatch-IsAttempted}

abbrev sample_endpoint : WebhookEndpoint
sample_endpoint = record {
  id = text "e";
  tenant_id = text "acme";
  url = text "https://acme.test";
  secret = text "s";
  events = run_failed ∷ [];
  enabled = true;
  created_at = [];
}

abbrev second_call : ℕ → WebhookEndpoint → WebhookEvent → ℕ → Bool
second_call call e event payload = call == 1

abbrev clock : ℕ → Text
clock n = n ∷ []

second_delivered :
    (dispatch second_call clock 3 (text "d") 0 sample_endpoint run_failed 7).delivery ≡ record {
      id = text "d";
      endpoint_id = text "e";
      event = run_failed;
      payload = 7;
      status = delivered;
      attempts = 2;
      last_attempt_at = some (1 ∷ []);
      response_status = some 200;
    }
unfolding dispatch attempt_from
second_delivered = refl

dispatch-IsAttempted_example :
    IsAttempted second_call clock sample_endpoint 3 0 0 run_failed 7
      (dispatch second_call clock 3 (text "d") 0 sample_endpoint run_failed 7)
dispatch-IsAttempted_example =
    dispatch-IsAttempted second_call clock sample_endpoint 3 (text "d") 0 run_failed 7
