-- ===== src/Webhooks/Attempts.antt =====
-- How often a delivery is attempted, and what it comes to.
use jobflow_project.Common.{
  ==_iff, Bool, Bool-cases, Text, ap, arith, false, inl, inr, refl, some, suc, sym, true, zero, ℕ,
  ◌+◌, ◌<◌, ◌==◌, ◌∙◌, ◌≡◌, ◌≤◌,
}
use jobflow_project.Webhooks.{
  WebhookEndpoint, WebhookEvent, WebhookDelivery, delivered, failed, DispatchResult, attempt_from,
  dispatch,
}

false_is_not_true : ¬ (false ≡ true)
false_is_not_true h = cc

module _ {D : Type 0} (post : ℕ → WebhookEndpoint → WebhookEvent → D → Bool) (now_iso : ℕ → Text)
    (endpoint : WebhookEndpoint) where
  abbrev answers : WebhookEvent → D → ℕ → Bool
  answers event payload c = post c endpoint event payload

  -- The calls from `calls` on: at most `left`, up to the first success.
  pub record IsAttempted (left calls before : ℕ) (event : WebhookEvent) (payload : D)
      (r : DispatchResult D) : Type 0 where
    pub within : (calls ≤ r.calls) × (r.calls ≤ calls + left)
    pub fails : (c : ℕ) → calls ≤ c → suc c < r.calls → answers event payload c ≡ false
    pub success :
        r.delivered_ok ≡ true
        → (r.delivery.status ≡ delivered)
          × (r.delivery.attempts + calls ≡ before + r.calls)
          × ((c : ℕ) × (r.calls ≡ suc c) × (calls ≤ c) × (answers event payload c ≡ true))
    pub failure :
        r.delivered_ok ≡ false
        → (r.delivery.status ≡ failed)
          × (r.calls ≡ calls + left)
          × ((c : ℕ) → calls ≤ c → c < r.calls → answers event payload c ≡ false)

  -- A call that failed, and the calls after it.
  from_here :
      (event : WebhookEvent) (payload : D) (calls c : ℕ)
      → answers event payload calls ≡ false
      → calls ≤ c
      → (suc calls ≤ c → answers event payload c ≡ false)
      → answers event payload c ≡ false
  from_here event payload calls c e b f = elim (Bool-cases (c == calls)) [
    | inl q ↦ ap (answers event payload) ((==_iff c calls).0 q) ∙ e
    | inr q ↦ f (ground (arith, b, q))
  ]

  attempt_from-IsAttempted :
      (left before calls : ℕ) (d : WebhookDelivery D)
      → IsAttempted left calls before d.event d.payload
          (attempt_from post now_iso left (suc before) calls endpoint d)
  unfolding attempt_from
  attempt_from-IsAttempted zero before calls d = record {
    within = (omega arith, omega arith);
    fails = λ c a b. absurd (omega (arith, a, b));
    success = λ h. absurd (false_is_not_true h);
    failure = λ h. (refl, omega arith, λ c a b. absurd (omega (arith, a, b)));
  }
  attempt_from-IsAttempted (suc left) before calls d =
      elim (Bool-cases (answers d.event d.payload calls)) [
        | inl e ↦ rw e (record {
          within = (omega arith, omega arith);
          fails = λ c a b. absurd (omega (arith, a, b));
          success = λ h. (refl, omega arith, (calls, refl, omega arith, e));
          failure = λ h. absurd (false_is_not_true (sym h));
        })
        | inr e ↦
            let rest =
              attempt_from-IsAttempted left (suc before) (suc calls)
                (record d { attempts = suc before; last_attempt_at = some (now_iso calls) }) in
            rw e (record {
              within = (omega (arith, rest.within.0), omega (arith, rest.within.1));
              fails = λ c a b. from_here d.event d.payload calls c e a (λ g. rest.fails c g b);
              success = λ h.
                  let won = rest.success h in
                  (
                    won.0,
                    omega (arith, won.1),
                    (won.2.0, won.2.1, omega (arith, won.2.2), won.2.3),
                  );
              failure = λ h.
                  let lost = rest.failure h in
                  (
                    lost.0,
                    omega (arith, lost.1),
                    λ c a b. from_here d.event d.payload calls c e a (λ g. lost.2 c g b),
                  );
            })
      ]

  -- A dispatch calls the endpoint up to its first success, and at most as often as is allowed; it is
  -- delivered exactly where a call succeeds, with the number of calls as its attempts, and has failed where
  -- all the calls that are allowed were made and each of them failed.
  pub dispatch-IsAttempted :
      (max_attempts : ℕ) (id : Text) (calls : ℕ) (event : WebhookEvent) (payload : D)
      → IsAttempted max_attempts calls 0 event payload
          (dispatch post now_iso max_attempts id calls endpoint event payload)
  unfolding dispatch
  dispatch-IsAttempted max_attempts id calls event payload =
      attempt_from-IsAttempted max_attempts 0 calls _
