-- ===== src/Resilience/Trust.antt =====
-- Which certificates ResilientSession.request of resilience.py leaves unverified.
use go_agent_llm_orchestrato.Prelude.{
  ℕ, zero, suc, String, ◌==◌, true, false, not, ◌&&◌, ◌||◌, Option, none, some, List, ◌∷◌, All, ◌≡◌,
  refl, sym, ◌∙◌, false≢true, if_cases, if_split,
}
use Prim.Native.String.{[] as empty_text, ◌++◌ as append_text}
use go_agent_llm_orchestrato.Prelude.Words.{has_part-append}
use go_agent_llm_orchestrato.Resilience.{
  ResilientSession, has_value, ssl_error, is_ssl_error, is_conn_error, is_auth_error, Attempt,
  Reply, answer, failure, Network, Run, is_local, attempt_of, gateway_turn, on_reply, request_from,
  request,
}

-- Every attempt verified the certificate, and the session still does.
pub record IsVerified {R : Type 0} (r : Run R) : Type 0 where
  pub session : r.session.verify_ssl ≡ true
  pub attempts : All (λ (a : Attempt). a.verify ≡ true) r.attempts

module _ {R : Type 0} (lower : String → String) (net : Network R) (endpoint : String) where
  gateway_turn-IsVerified :
      (s : ResilientSession) (o : Option String) (next : String → Run R)
      → s.verify_ssl ≡ true
      → ((ip : String) → IsVerified (next ip))
      → IsVerified (gateway_turn lower net endpoint s o next)
  gateway_turn-IsVerified s none next on h = record { session = on; attempts = tt }
  gateway_turn-IsVerified s (some ip) next on h =
      if_cases IsVerified (ip == empty_text) _ (next ip) (record { session = on; attempts = tt })
        (h ip)

  on_reply-IsVerified :
      (n : ℕ) (s : ResilientSession) (ip : Option String) (reply : Reply R) (unverified : Run R)
      (by_address : String → Run R)
      → s.verify_ssl ≡ true
      → is_local lower net endpoint s.host ≡ false
      → ((address : String) → IsVerified (by_address address))
      → IsVerified (on_reply lower net endpoint n s ip reply unverified by_address)
  unfolding on_reply
  on_reply-IsVerified n s ip (answer r) unverified by_address on remote k = record {
    session = on;
    attempts = tt;
  }
  on_reply-IsVerified n s ip (failure e) unverified by_address on remote k =
      if_cases IsVerified (is_ssl_error e && s.verify_ssl) _ _
        (if_split IsVerified (is_local lower net endpoint s.host) unverified _
          (λ here. absurd (false≢true (sym remote ∙ here)))
          (λ _. record { session = on; attempts = tt }))
        (if_cases IsVerified (not (has_value ip) && (is_conn_error e || is_auth_error e)) _ _
          (gateway_turn-IsVerified s (net.gateway n) by_address on k)
          (record { session = on; attempts = tt }))

  verify-attempt_of :
      (s : ResilientSession) (ip : Option String)
      → (attempt_of lower net endpoint s ip).verify ≡ s.verify_ssl
  unfolding attempt_of
  verify-attempt_of s none = refl
  verify-attempt_of s (some ip) = refl

  request_from-IsVerified :
      (fuel n : ℕ) (s : ResilientSession) (ip : Option String)
      → s.verify_ssl ≡ true
      → is_local lower net endpoint s.host ≡ false
      → IsVerified (request_from lower net endpoint fuel n s ip)
  unfolding request_from
  request_from-IsVerified zero n s ip on remote = record { session = on; attempts = tt }
  request_from-IsVerified (suc fuel) n s ip on remote =
      let next =
        on_reply-IsVerified n s ip (net.send n (attempt_of lower net endpoint s ip))
          (request_from lower net endpoint fuel (suc n) (record s { verify_ssl = false }) ip)
          (λ address. request_from lower net endpoint fuel (suc n) s (some address)) on remote
          (λ address. request_from-IsVerified fuel (suc n) s (some address) on remote) in
      if_cases IsVerified s.use_browser _ _ (record { session = on; attempts = tt })
        (record { session = next.session; attempts = (verify-attempt_of s ip ∙ on, next.attempts) })

  -- A session that verifies certificates verifies them in every attempt of a request, and afterwards,
  -- when its host has none of the marks of a local one, whatever the network answers.
  pub request-IsVerified :
      (s : ResilientSession)
      → s.verify_ssl ≡ true
      → is_local lower net endpoint s.host ≡ false
      → IsVerified (request lower net endpoint s)
  unfolding request
  request-IsVerified s on remote = request_from-IsVerified 3 0 s none on remote

-- A host of any domain that has "localhost" in its name counts as local: after an SSLError its
-- certificate is not verified in the next attempt.
pub request_unverified :
    {R : Type 0} (lower : String → String) (net : Network R) (endpoint : String)
    (s : ResilientSession) (u v : String)
    → lower s.host ≡ append_text u (append_text "localhost" v)
    → s.verify_ssl ≡ true
    → s.use_browser ≡ false
    → net.send 0 (attempt_of lower net endpoint s none) ≡ failure ssl_error
    → (later : List Attempt) × ((request lower net endpoint s).attempts
        ≡ attempt_of lower net endpoint s none
          ∷ attempt_of lower net endpoint (record s { verify_ssl = false }) none
          ∷ later)
unfolding request request_from on_reply is_local
request_unverified lower net endpoint s u v named on direct failed =
    let here = has_part-append u "localhost" v in
    let s' = record s { verify_ssl = false } in
    let next =
      on_reply lower net endpoint 1 s' none (net.send 1 (attempt_of lower net endpoint s' none))
        (request_from lower net endpoint 1 2 s' none)
        (λ address. request_from lower net endpoint 1 2 s' (some address)) in
    (next.attempts, rw (direct, failed, on, named, here) refl)
