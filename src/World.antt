-- ===== src/World.antt =====
-- What the request handlers change: the audit trail, the login protection, the services behind the
-- other dependencies, the headers of the response, and the counters of rate-limit decisions.
use secure_api_gateway.Prelude.{ℕ, String, List, [], ◌∷◌, some}
use secure_api_gateway.Prelude.Dict.{Dict, put}
use secure_api_gateway.Prelude.Texts.{text}
use secure_api_gateway.Redis.{Redis}
use secure_api_gateway.Http.{HeaderValue, Action, ok}
use secure_api_gateway.Login.Client.{Backend}
use secure_api_gateway.Audit.{Trail, Request, Details, no_details}

-- The state of each service that the handlers depend on.
pub record Services : Type 1 where
  pub redis : Redis
  pub Users : Type 0
  pub Limits : Type 0
  pub Roles : Type 0

pub record World (s : Services) : Type 0 where
  pub trail : Trail
  pub login : Backend s.redis
  pub users : s.Users
  pub limits : s.Limits
  pub roles : s.Roles
  pub headers : Dict HeaderValue
  pub rate_metrics : List (String × String)

module _ {s : Services} where
  abbrev pub on_trail : {A : Type 0} → Action Trail A → Action (World s) A
  on_trail m w = let r = m w.trail in (r.0, record w { trail = r.1 })

  abbrev pub on_login : {A : Type 0} → Action (Backend s.redis) A → Action (World s) A
  on_login m w = let r = m w.login in (r.0, record w { login = r.1 })

  abbrev pub on_users : {A : Type 0} → Action s.Users A → Action (World s) A
  on_users m w = let r = m w.users in (r.0, record w { users = r.1 })

  abbrev pub on_limits : {A : Type 0} → Action s.Limits A → Action (World s) A
  on_limits m w = let r = m w.limits in (r.0, record w { limits = r.1 })

  abbrev pub on_roles : {A : Type 0} → Action s.Roles A → Action (World s) A
  on_roles m w = let r = m w.roles in (r.0, record w { roles = r.1 })

  -- response.headers[name] = value, for each of a list.
  unfoldable pub set_headers : Dict HeaderValue → Action (World s) (Unit {0})
  set_headers [] w = (ok tt, w)
  set_headers ((name, value) ∷ rest) w =
      set_headers rest (record w { headers = put name value w.headers })

  -- record_rate_limit_metric_best_effort
  unfoldable pub count_decision : String → String → Action (World s) (Unit {0})
  count_decision scope decision w =
      (ok tt, record w { rate_metrics = (scope, decision) ∷ w.rate_metrics })

-- The fields that most handlers give to an event.
abbrev pub about : Request → ℕ → String → Details
about request status_code reason_code = record no_details {
  method = some request.method;
  status_code = some status_code;
  reason_code = some (text reason_code);
}
