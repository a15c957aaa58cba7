-- ===== src/Realtime/Webhooks/Laws.antt =====
-- What the verification of a signature decides.
use ascended_core.Base.{
  String, ◌≡◌, refl, sym, ap, ◌∙◌, true, false, some, List, last, last-append, inl, inr, ◌==◌,
  Bool-cases, arith, str_eq, eq_iff, eq_refl, ==_iff,
}
use ascended_core.Realtime.{DomainEvent}
use ascended_core.Realtime.Webhooks.{
  Platform, WebhookEndpoint, RecordedDelivery, sign_payload, verify_signature, deliver,
  serialize_event,
}

module _ (platform : Platform)
    (compares : (s t : String)
      → platform.byte_length s ≡ platform.byte_length t
      → platform.timing_safe_equal s t ≡ some (str_eq s t)) where
  differ_lem :
      (s t : String)
      → (platform.byte_length s == platform.byte_length t) ≡ false
      → str_eq s t ≡ false
  differ_lem s t differ =
      ground (arith, eq_iff s t, differ, λ (e : s ≡ t). ap platform.byte_length e)

  -- Where `timingSafeEqual` compares texts of one length, the verification never throws, and says
  -- whether the signature is the one of the payload.
  pub verify_signature_lem :
      (secret payload signature : String)
      → verify_signature platform secret payload signature
        ≡ some (str_eq (sign_payload platform secret payload) signature)
  unfolding verify_signature sign_payload
  verify_signature_lem secret payload signature =
      let expected = platform.hmac_sha256_hex secret payload in
      elim (Bool-cases (platform.byte_length expected == platform.byte_length signature)) [
        | inl same ↦ rw same (compares expected signature ((==_iff _ _).0 same))
        | inr differ ↦ rw differ (ap some (sym (differ_lem expected signature differ)))
      ]

  -- What the recording delivery signs, its endpoint's secret verifies against the body that it
  -- records last, under the same condition on `timingSafeEqual`.
  pub verify_signature-deliver :
      (endpoint : WebhookEndpoint) (event : DomainEvent) (now : String)
      (attempts : List RecordedDelivery)
      → let (attempt, recorded) = deliver platform endpoint event now attempts in
        (r : RecordedDelivery) × (last recorded ≡ some r)
        × (r.endpoint ≡ endpoint)
        × (verify_signature platform endpoint.secret r.body attempt.signature ≡ some true)
  unfolding deliver
  verify_signature-deliver endpoint event now attempts =
      let body = serialize_event platform event in
      (
        record { endpoint = endpoint; event = event; body = body },
        last-append attempts _,
        refl,
        verify_signature_lem endpoint.secret body (sign_payload platform endpoint.secret body)
            ∙ ap some (eq_refl (sign_payload platform endpoint.secret body)),
      )
