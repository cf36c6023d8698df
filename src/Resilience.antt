-- ===== src/Resilience.antt =====
-- The chain of attempts behind one request: ResilientSession of .agent/scripts/lib/resilience.py.
pub mod Chain
pub mod Trust
mod Samples
use Prim.Native.String.{[] as empty_text, ◌∷◌ as cons_char, ◌++◌ as append_text}
use go_agent_llm_orchestrato.Prelude.{
  ℕ, zero, suc, ◌+◌, String, ◌==◌, Bool, true, false, not, ◌&&◌, ◌||◌, Option, none, some, List, [],
  ◌∷◌, ◌++◌, starts_with, eqb, if◌then◌else◌,
}
use go_agent_llm_orchestrato.Prelude.Words.{replace, has_part}
use go_agent_llm_orchestrato.Prelude.Text.{text_after, text_length}

-- s.split(c)[0]
unfoldable pub part_before : String → String → String
part_before c empty_text = empty_text
part_before c (cons_char d s) =
    let rest = part_before c s in
    if cons_char d empty_text == c then empty_text else cons_char d rest

unfoldable pub host_name : String → String
unfolding replace part_before
host_name host = part_before "/" (replace "https://" empty_text (replace "http://" empty_text host))

pub record Profile : Type 0 where
  pub domain_patterns : List String
  pub verify_ssl : Option Bool

pub record ResilientSession : Type 0 where
  pub host : String
  pub token : Option String
  pub user : Option String
  pub password : Option String
  pub use_browser : Bool
  pub verify_ssl : Bool
  pub headers : List (String × String)

abbrev pub has_value : Option String → Bool
has_value none = false
has_value (some s) = not (s == empty_text)

-- HTTPBasicAuth(user, password), if there is no token.
abbrev pub auth_of : Option String → Option String → Option String → Option (String × String)
auth_of token none password = none
auth_of token (some u) none = none
auth_of token (some u) (some p) =
    if has_value (some u) && has_value (some p) && not (has_value token) then some (u, p) else none

-- The profile of the first pattern that matches; `fnmatch` is Python's.
module _ (fnmatch : String → String → Bool) where
  abbrev pub any_pattern : String → List String → Bool
  any_pattern name [] = false
  any_pattern name (p ∷ ps) = fnmatch name p || any_pattern name ps

  unfoldable pub match_profile : String → List Profile → Option Profile
  unfolding host_name part_before
  match_profile host [] = none
  match_profile host (p ∷ ps) =
      let rest = match_profile host ps in
      if any_pattern (part_before ":" (host_name host)) p.domain_patterns then some p else rest

abbrev pub verify_of : Option Profile → Bool → Bool
verify_of none verify = verify
verify_of (some p) verify = profile_verify p.verify_ssl
  where
    profile_verify : Option Bool → Bool
    profile_verify none = verify
    profile_verify (some b) = b

-- host.rstrip('/')
unfoldable pub without_slashes : String → String
without_slashes empty_text = empty_text
without_slashes (cons_char c s) =
    let rest = without_slashes s in
    if cons_char c empty_text == "/" && rest == empty_text then empty_text else cons_char c rest

-- What the constructor makes of its arguments; `base64` encodes a text.
module _ (fnmatch : String → String → Bool) (base64 : String → String) where
  abbrev pub basic_headers : Option String → Option String → List (String × String)
  basic_headers none password = []
  basic_headers (some u) none = []
  basic_headers (some u) (some p) =
      if u == empty_text || p == empty_text
      then []
      else ("Authorization", append_text "Basic " (base64 (append_text u (append_text ":" p)))) ∷ []

  abbrev pub auth_headers : Option String → Option String → Option String → List (String × String)
  auth_headers none user password = basic_headers user password
  auth_headers (some token) user password =
      if token == empty_text
      then basic_headers user password
      else ("Authorization", append_text "Bearer " token) ∷ []

  unfoldable pub new_session :
      List Profile
      → String
      → Option String
      → Option String
      → Option String
      → Bool
      → Bool
      → ResilientSession
  unfolding match_profile without_slashes
  new_session profiles host token user password use_browser verify = record {
    host = without_slashes host;
    token = token;
    user = user;
    password = password;
    use_browser = use_browser;
    verify_ssl = verify_of (match_profile fnmatch (without_slashes host) profiles) verify;
    headers =
        ("Content-Type", "application/json")
        ∷ ("Accept", "application/json")
        ∷ auth_headers token user password;
  }

-- Why an attempt failed. An SSLError of the library is a ConnectionError as well.
pub data Failure : Type 0 where
  ssl_error : Failure
  connection_error : Failure
  timed_out : Failure
  http_status : ℕ → Failure
  other_error : Failure

abbrev pub is_ssl_error : Failure → Bool
is_ssl_error ssl_error = true
is_ssl_error connection_error = false
is_ssl_error timed_out = false
is_ssl_error (http_status code) = false
is_ssl_error other_error = false

abbrev pub is_conn_error : Failure → Bool
is_conn_error ssl_error = true
is_conn_error connection_error = true
is_conn_error timed_out = true
is_conn_error (http_status code) = false
is_conn_error other_error = false

abbrev pub is_auth_error : Failure → Bool
is_auth_error ssl_error = false
is_auth_error connection_error = false
is_auth_error timed_out = false
is_auth_error (http_status code) = eqb code 401 || eqb code 403
is_auth_error other_error = false

-- One call of requests.request: where to, and whether certificates are verified.
pub record Attempt : Type 0 where
  pub url : String
  pub headers : List (String × String)
  pub auth : Option (String × String)
  pub verify : Bool

pub data Reply (R : Type 0) : Type 0 where
  answer : R → Reply R
  failure : Failure → Reply R

-- What the network, the gateway and the browser answer; the first two to the n-th attempt.
pub record Network (R : Type 0) : Type 0 where
  pub send : ℕ → Attempt → Reply R
  pub gateway : ℕ → Option String
  pub browser : R

pub data Ending (R : Type 0) : Type 0 where
  answered : R → Ending R
  bridged : R → Ending R
  raised : Failure → Ending R
  out_of_fuel : Ending R

-- How it ended, the session afterwards, and the attempts in their order.
pub record Run (R : Type 0) : Type 0 where
  pub ending : Ending R
  pub session : ResilientSession
  pub attempts : List Attempt

module _ {R : Type 0} (lower : String → String) (net : Network R) (endpoint : String) where
  unfoldable pub is_local : String → Bool
  unfolding has_part
  is_local host =
      let h = lower host in has_part h "localhost" || has_part h "127.0.0.1" || has_part h ".local"

  unfoldable pub with_scheme : String → String
  unfolding has_part
  with_scheme url = if has_part url "://" then url else append_text "http://" url

  -- The address, with the host replaced by the resolved one.
  unfoldable pub attempt_of : ResilientSession → Option String → Attempt
  unfolding host_name replace has_part
  attempt_of s none = record {
    url = append_text s.host endpoint;
    headers = s.headers;
    auth = auth_of s.token s.user s.password;
    verify = s.verify_ssl;
  }
  attempt_of s (some ip) = record {
    url = with_scheme (replace (host_name s.host) ip (append_text s.host endpoint));
    headers = s.headers ++ ("Host", host_name s.host) ∷ [];
    auth = auth_of s.token s.user s.password;
    verify = s.verify_ssl;
  }

  abbrev pub ended : Ending R → ResilientSession → Run R
  ended e s = record { ending = e; session = s; attempts = [] }

  abbrev pub after_attempt : Attempt → Run R → Run R
  after_attempt a r = record r { attempts = a ∷ r.attempts }

  -- What follows an answer; `unverified` is the second try without verification, `by_address` the one
  -- with a resolved address.
  abbrev pub gateway_turn : ResilientSession → Option String → (String → Run R) → Run R
  gateway_turn s none by_address = ended (bridged net.browser) s
  gateway_turn s (some ip) by_address =
      if ip == empty_text then ended (bridged net.browser) s else by_address ip

  unfoldable pub on_reply :
      ℕ → ResilientSession → Option String → Reply R → Run R → (String → Run R) → Run R
  unfolding is_local
  on_reply n s ip (answer r) unverified by_address = ended (answered r) s
  on_reply n s ip (failure e) unverified by_address =
      if is_ssl_error e && s.verify_ssl
      then (if is_local s.host then unverified else ended (raised e) s)
      else if not (has_value ip) && (is_conn_error e || is_auth_error e)
      then gateway_turn s (net.gateway n) by_address
      else ended (bridged net.browser) s

  unfoldable pub request_from : ℕ → ℕ → ResilientSession → Option String → Run R
  unfolding on_reply attempt_of
  request_from zero n s ip = ended out_of_fuel s
  request_from (suc fuel) n s ip =
      if s.use_browser
      then ended (bridged net.browser) s
      else after_attempt (attempt_of s ip) (
          on_reply n s ip (net.send n (attempt_of s ip))
            (request_from fuel (suc n) (record s { verify_ssl = false }) ip)
            (λ address. request_from fuel (suc n) s (some address)))

  -- Three attempts at most.
  unfoldable pub request : ResilientSession → Run R
  unfolding request_from
  request s = request_from 3 0 s none
