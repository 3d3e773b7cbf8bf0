-- ===== src/Http/Handlers/Laws.antt =====
-- Which calls reach the services, and with what status they are answered.
use spec_star_go.Prelude.{
  ℕ, String, ◌≡◌, ◌≢◌, refl, inl, inr, str_eq, eq_iff, Option, none, some, arith, Bool-cases,
  Option-cases, if◌then◌else◌, sym, ◌∙◌,
}
use spec_star_go.Domain.Errors.{Error, error_text, is, insufficient_position, concurrency_conflict}
use spec_star_go.Domain.Effect.{ok, err, Result-cases}
use spec_star_go.Application.Flow.{Reply}
use spec_star_go.Platform.Logger.{Context, Span}
use spec_star_go.Http.Observation.{Process}
use spec_star_go.Http.{
  Request, Response, Body, HttpCodec, payload, error_body, coded_error_body, json_response,
  error_response, coded_error_response,
}
use spec_star_go.Http.Handlers.{deposit_reply, handle_deposit, withdraw_reply, handle_withdraw}

module _ {Q R : Type 0} (json : HttpCodec Q (Option R)) where
  -- a response that is made has the status and the encoded body
  json_response-eq_ok :
      (status : ℕ) (body : Body (Option R)) (resp : Response)
      → json_response json status body ≡ ok resp
      → (resp.status_code ≡ status) × (json.encode body ≡ ok resp.body)
  unfolding json_response
  json_response-eq_ok status body resp h = elim (Result-cases (json.encode body)) [
    | inl (text, e) ↦ ground arith
    | inr (why, e) ↦ ground arith
  ]

  abbrev pub withdraw_error : Error → Body (Option R)
  withdraw_error e =
      if is e insufficient_position
      then coded_error_body (error_text e) "INSUFFICIENT_POSITION"
      else if is e concurrency_conflict
      then coded_error_body (error_text e) "CONCURRENCY_CONFLICT"
      else error_body (error_text e)

  -- the body of a withdrawal's answer
  abbrev pub withdraw_body : Reply R → Body (Option R)
  withdraw_body r = elim r.error [ none ↦ payload r.response | some e ↦ withdraw_error e ]

  -- the body of a deposit's answer
  abbrev pub deposit_body : Reply R → Body (Option R)
  deposit_body r = elim r.error [ none ↦ payload r.response | some e ↦ error_body (error_text e) ]

module _ {W Q R : Type 0} (json : HttpCodec Q (Option R)) (execute : Q → W → Reply R × W) where
  -- How a call is answered, given the body of the service's answers: by the method, by the body of
  -- the request, or by the service.
  pub data Answer (body_of : Reply R → Body (Option R)) (req : Request) (w : W) (resp : Response)
      (w' : W) : Type 0 where
    method_not_allowed :
        req.method ≢ "POST"
        → resp.status_code ≡ 405
        → json.encode (error_body "method not allowed") ≡ ok resp.body
        → w' ≡ w
        → Answer body_of req w resp w'
    invalid_body :
        (e : Error)
        → req.method ≡ "POST"
        → json.decode req.body ≡ err e
        → resp.status_code ≡ 422
        → json.encode (error_body "invalid request body") ≡ ok resp.body
        → w' ≡ w
        → Answer body_of req w resp w'
    served :
        (q : Q) (r : Reply R)
        → req.method ≡ "POST"
        → json.decode req.body ≡ ok q
        → execute q w ≡ (r, w')
        → resp.status_code ≡ r.status
        → json.encode (body_of r) ≡ ok resp.body
        → Answer body_of req w resp w'

module _ {W Q R : Type 0} (json : HttpCodec Q (Option R)) (tracer : String → Context → Span)
    (execute : Q → W → Reply R × W) where
  withdraw_reply_lem :
      (r : Reply R)
      → withdraw_reply json tracer execute r ≡ json_response json r.status (withdraw_body json r)
  unfolding withdraw_reply error_response coded_error_response
  withdraw_reply_lem r = elim (Option-cases r.error) [
    | inl h ↦ rw (h, withdraw_reply) refl
    | inr (e, h) ↦ elim (Bool-cases (is e insufficient_position)) [
      | inl i ↦ rw (h, withdraw_reply, withdraw_body, i) refl
      | inr i ↦ elim (Bool-cases (is e concurrency_conflict)) [
        | inl c ↦ rw (h, withdraw_reply, withdraw_body, i, c) refl
        | inr c ↦ rw (h, withdraw_reply, withdraw_body, i, c) refl
      ]
    ]
  ]

  deposit_reply_lem :
      (r : Reply R)
      → deposit_reply json tracer execute r ≡ json_response json r.status (deposit_body json r)
  unfolding deposit_reply error_response
  deposit_reply_lem r = elim (Option-cases r.error) [
    | inl h ↦ rw (h, deposit_reply) refl
    | inr (e, h) ↦ rw (h, deposit_reply) refl
  ]

  -- A response of the withdrawal handler is the 405 of another method than POST, or the 422 of a
  -- body that cannot be decoded, and then the service was not called; or it has the status of the
  -- service's reply, and its body is the encoding of the response, of the error, or of the error
  -- with the code of an insufficient position or of a concurrency conflict.
  pub handle_withdraw-Answer :
      (ctx : Context) (req : Request) (elapsed : ℕ) (s s' : Process W) (resp : Response)
      → handle_withdraw json tracer execute ctx req elapsed s ≡ (ok resp, s')
      → Answer json execute (withdraw_body json) req s.world resp s'.world
  unfolding handle_withdraw error_response
  handle_withdraw-Answer ctx req elapsed s s' resp h =
      elim (Bool-cases (str_eq req.method "POST")) [
        | inr m ↦
            let (status, body) =
              json_response-eq_ok json 405 (error_body "method not allowed") resp (ground arith) in
            method_not_allowed (λ q. ground (arith, (eq_iff req.method "POST").1 q)) status body
              (ground arith)
        | inl m ↦ elim (Result-cases (json.decode req.body)) [
          | inr (e, d) ↦
              let (status, body) =
                json_response-eq_ok json 422 (error_body "invalid request body") resp
                  (ground arith) in
              invalid_body e ((eq_iff req.method "POST").0 m) d status body (ground arith)
          | inl (q, d) ↦
              let (r, w1) = execute q s.world in
              let (status, body) =
                json_response-eq_ok json r.status (withdraw_body json r) resp
                  (sym (withdraw_reply_lem r) ∙ ground arith) in
              served q r ((eq_iff req.method "POST").0 m) d (ground arith) status body
        ]
      ]

  -- A response of the deposit handler is the 405 of another method than POST, or the 422 of a body
  -- that cannot be decoded, and then the service was not called; or it has the status of the
  -- service's reply, and its body is the encoding of the response or of the error.
  pub handle_deposit-Answer :
      (ctx : Context) (req : Request) (elapsed : ℕ) (s s' : Process W) (resp : Response)
      → handle_deposit json tracer execute ctx req elapsed s ≡ (ok resp, s')
      → Answer json execute (deposit_body json) req s.world resp s'.world
  unfolding handle_deposit error_response
  handle_deposit-Answer ctx req elapsed s s' resp h = elim (Bool-cases (str_eq req.method "POST")) [
    | inr m ↦
        let (status, body) =
          json_response-eq_ok json 405 (error_body "method not allowed") resp (ground arith) in
        method_not_allowed (λ q. ground (arith, (eq_iff req.method "POST").1 q)) status body
          (ground arith)
    | inl m ↦ elim (Result-cases (json.decode req.body)) [
      | inr (e, d) ↦
          let (status, body) =
            json_response-eq_ok json 422 (error_body "invalid request body") resp (ground arith) in
          invalid_body e ((eq_iff req.method "POST").0 m) d status body (ground arith)
      | inl (q, d) ↦
          let (r, w1) = execute q s.world in
          let (status, body) =
            json_response-eq_ok json r.status (deposit_body json r) resp
              (sym (deposit_reply_lem r) ∙ ground arith) in
          served q r ((eq_iff req.method "POST").0 m) d (ground arith) status body
    ]
  ]
