-- ===== src/Resilience/Chain.antt =====
-- The chain of ResilientSession.request in resilience.py comes to an end after three attempts.
use go_agent_llm_orchestrato.Prelude.{
  ℕ, zero, suc, ◌+◌, ◌<◌, ◌≤◌, String, ◌==◌, Bool, true, false, not, ◌&&◌, ◌||◌, Option, none, some,
  length, ◌≡◌, refl, arith, if_cases, if_split, if◌then◌else◌,
}
use Prim.Native.String.{[] as empty_text}
use go_agent_llm_orchestrato.Resilience.{
  ResilientSession, has_value, is_ssl_error, is_conn_error, is_auth_error, Attempt, Reply, answer,
  failure, Network, Ending, answered, bridged, raised, out_of_fuel, Run, is_local, attempt_of,
  after_attempt, gateway_turn, on_reply, request_from, request,
}

abbrev pub is_out : {R : Type 0} → Ending R → Bool
is_out (answered r) = false
is_out (bridged r) = false
is_out (raised e) = false
is_out out_of_fuel = true

-- The run came to an end, with no more attempts than `most`.
pub record EndsWithin {R : Type 0} (most : ℕ) (r : Run R) : Type 0 where
  pub ends : is_out r.ending ≡ false
  pub few : length r.attempts ≤ most

-- The turns of the chain that are still open: to give up verification, and to resolve the address.
abbrev turns_left : ResilientSession → Option String → ℕ
turns_left s ip = (if s.verify_ssl then 1 else 0) + (if has_value ip then 0 else 1)

module _ {R : Type 0} (lower : String → String) (net : Network R) (endpoint : String) where
  gateway_turn-EndsWithin :
      (most : ℕ) (s : ResilientSession) (o : Option String) (next : String → Run R)
      → ((ip : String) → (ip == empty_text) ≡ false → EndsWithin most (next ip))
      → EndsWithin most (gateway_turn lower net endpoint s o next)
  gateway_turn-EndsWithin most s none next h = record { ends = refl; few = omega arith }
  gateway_turn-EndsWithin most s (some ip) next h =
      if_split (EndsWithin most) (ip == empty_text) _ (next ip)
        (λ _. record { ends = refl; few = omega arith }) (h ip)

  on_reply-EndsWithin :
      (most n : ℕ) (s : ResilientSession) (ip : Option String) (reply : Reply R)
      (unverified : Run R) (by_address : String → Run R)
      → (s.verify_ssl ≡ true → EndsWithin most unverified)
      → (has_value ip ≡ false
          → (address : String) → (address == empty_text) ≡ false
          → EndsWithin most (by_address address))
      → EndsWithin most (on_reply lower net endpoint n s ip reply unverified by_address)
  unfolding on_reply
  on_reply-EndsWithin most n s ip (answer r) unverified by_address h k = record {
    ends = refl;
    few = omega arith;
  }
  on_reply-EndsWithin most n s ip (failure e) unverified by_address h k =
      if_split (EndsWithin most) (is_ssl_error e && s.verify_ssl) _ _
        (λ ssl.
          if_cases (EndsWithin most) (is_local lower net endpoint s.host) unverified _
            (h (ground (arith, ssl))) (record { ends = refl; few = omega arith }))
        (λ _.
          if_split (EndsWithin most) (not (has_value ip) && (is_conn_error e || is_auth_error e)) _
            _
            (λ open_turn.
              gateway_turn-EndsWithin most s (net.gateway n) by_address
                (k (ground (arith, open_turn))))
            (λ _. record { ends = refl; few = omega arith }))

  EndsWithin-after_attempt :
      (most : ℕ) (a : Attempt) (r : Run R)
      → EndsWithin most r
      → EndsWithin (suc most) (after_attempt lower net endpoint a r)
  EndsWithin-after_attempt most a r h = record { ends = h.ends; few = omega (arith, h.few) }

  request_from-EndsWithin :
      (fuel n : ℕ) (s : ResilientSession) (ip : Option String)
      → turns_left s ip < fuel
      → EndsWithin fuel (request_from lower net endpoint fuel n s ip)
  unfolding request_from
  request_from-EndsWithin zero n s ip h = absurd (omega (arith, h))
  request_from-EndsWithin (suc fuel) n s ip h =
      if_cases (EndsWithin (suc fuel)) s.use_browser _ _ (record { ends = refl; few = omega arith })
        (EndsWithin-after_attempt fuel (attempt_of lower net endpoint s ip) _ (
          on_reply-EndsWithin fuel n s ip _ _ _
            (λ verified.
              request_from-EndsWithin fuel (suc n) (record s { verify_ssl = false }) ip
                (ground (arith, h, verified)))
            (λ unresolved address named.
              request_from-EndsWithin fuel (suc n) s (some address)
                (ground (arith, h, unresolved, named)))))

  -- A request comes to an end, whatever the network answers: after three attempts at most there is an
  -- answer, an exception, or the browser's answer.
  pub request-EndsWithin : (s : ResilientSession) → EndsWithin 3 (request lower net endpoint s)
  unfolding request
  request-EndsWithin s = request_from-EndsWithin 3 0 s none (ground arith)
