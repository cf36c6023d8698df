-- ===== src/Resilience/Samples.antt =====
-- Requests over networks that fail in one way or another.
use go_agent_llm_orchestrato.Prelude.{ℕ, String, true, false, none, some, List, [], ◌∷◌, ◌≡◌, refl}
use go_agent_llm_orchestrato.Prelude.Words.{replace, has_part}
use go_agent_llm_orchestrato.Resilience.{
  host_name, ResilientSession, ssl_error, Attempt, failure, Network, bridged, raised, is_local,
  attempt_of, request, new_session,
}
use go_agent_llm_orchestrato.Resilience.Chain.{EndsWithin, request-EndsWithin}
use go_agent_llm_orchestrato.Resilience.Trust.{IsVerified, request-IsVerified, request_unverified}

abbrev same : String → String
same t = t

abbrev to : String → ResilientSession
to host = record {
  host = host;
  token = some "t";
  user = none;
  password = none;
  use_browser = false;
  verify_ssl = true;
  headers = [];
}

-- Certificates are refused, and the gateway knows an address.
abbrev refusing : Network ℕ
refusing = record { send = λ n a. failure ssl_error; gateway = λ n. some "10.0.0.1"; browser = 7 }

texts :
    (host_name "https://a.example:80/x" ≡ "a.example:80")
    × (replace "a" "bb" "banana" ≡ "bbbnbbnbb")
    × ((new_session
          (λ name p. true)
          same
          (record { domain_patterns = "*" ∷ []; verify_ssl = some false } ∷ [])
          "http://a/"
          none
          (some "u")
          (some "p")
          false
          true).verify_ssl
        ≡ false)
unfolding host_name replace new_session
texts = (refl, refl, refl)

-- Remote: the exception is raised at once. Local: two more attempts, then the browser.
endings :
    ((request same refusing "/v1" (to "https://a.example")).ending ≡ raised ssl_error)
    × ((request same refusing "/v1" (to "https://localhost")).ending ≡ bridged 7)
unfolding request is_local
endings = (refl, refl)

request-EndsWithin_example : EndsWithin 3 (request same refusing "/v1" (to "https://localhost"))
request-EndsWithin_example = request-EndsWithin same refusing "/v1" (to "https://localhost")

request-IsVerified_example : IsVerified (request same refusing "/v1" (to "https://a.example"))
unfolding is_local has_part
request-IsVerified_example =
    request-IsVerified same refusing "/v1" (to "https://a.example") refl refl

request_unverified_example :
    (later : List Attempt) × ((request same refusing "/v1"
        (to "https://localhost.example")).attempts
      ≡ attempt_of same refusing "/v1" (to "https://localhost.example") none
        ∷ attempt_of same refusing "/v1"
            (record (to "https://localhost.example") { verify_ssl = false })
            none
        ∷ later)
request_unverified_example =
    request_unverified same refusing "/v1" (to "https://localhost.example") "https://" ".example"
      refl refl refl refl
