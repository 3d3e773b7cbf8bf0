-- ===== src/Http.antt =====
-- internal/adapters/inbound/httphandler and the routing of cmd/http-lambda/main.go.
pub mod Observation
pub mod Handlers
use spec_star_go.Prelude.{ℕ, String, str_eq, List, [], ◌∷◌, if◌then◌else◌}
use spec_star_go.Domain.Errors.{wrap}
use spec_star_go.Domain.Effect.{Result, ok, err}

-- what the handlers read of `events.APIGatewayV2HTTPRequest`
pub record Request : Type 0 where
  pub method : String
  pub path : String
  pub body : String

-- `events.APIGatewayV2HTTPResponse`
pub record Response : Type 0 where
  pub status_code : ℕ
  pub headers : List (String × String)
  pub body : String

-- what is marshalled as the body: a response of the service, or one of the two maps
pub data Body (R : Type 0) : Type 0 where
  payload : R → Body R
  error_body : (error : String) → Body R
  coded_error_body : (error code : String) → Body R

-- `json.Unmarshal` of a request and `json.Marshal` of a body
pub record HttpCodec (Q R : Type 0) : Type 0 where
  pub decode : String → Result Q
  pub encode : Body R → Result String

module _ {Q R : Type 0} (json : HttpCodec Q R) where
  unfoldable pub json_response : ℕ → Body R → Result Response
  json_response status body = elim (json.encode body) [
    | err e ↦ err (wrap "marshal response body" e)
    | ok text ↦ ok (record {
      status_code = status;
      headers = ("Content-Type", "application/json") ∷ [];
      body = text;
    })
  ]

  unfoldable pub error_response : ℕ → String → Result Response
  unfolding json_response
  error_response status text = json_response status (error_body text)

  unfoldable pub coded_error_response : ℕ → (text code : String) → Result Response
  unfolding json_response
  coded_error_response status text code = json_response status (coded_error_body text code)

-- the routing of `main`
unfoldable pub route :
    {W : Type 0}
    → (deposit withdraw : Request → W → Result Response × W) → Request
    → W
    → Result Response × W
route deposit withdraw req w =
    if str_eq req.path "/deposits"
    then deposit req w
    else if str_eq req.path "/withdrawals"
    then withdraw req w
    else (
      ok (record {
        status_code = 404;
        headers = ("Content-Type", "application/json") ∷ [];
        body = "{\"error\":\"not found\"}";
      }),
      w,
    )
