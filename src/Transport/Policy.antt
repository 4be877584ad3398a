-- ===== src/Transport/Policy.antt =====
-- src/app_server/request_policy.rs: how long a request may take, in milliseconds.
use zed_codex_acp_cas.Common.{
  ℕ, ◌<◌, ◌^◌, ◌+◌, ◌*◌, ◌-◌, List, [], ◌∷◌, ◌++◌, Option, none, some, ◌≡◌, arith, ◌==◌,
  if◌then◌else◌, any, inl, inr, Option-cases,
}
use zed_codex_acp_cas.Common.Text.{Text, codes, text_eq, trim}
use zed_codex_acp_cas.Common.Decimal.{parse_digits, parse_nonempty, parse_unsigned, parse_u64}

-- What `env::var` gives.
pub data EnvVar : Type 0 where
  present : Text → EnvVar
  not_present : EnvVar
  not_unicode : EnvVar

-- `Result<Duration, String>`.
pub data Timeout : Type 0 where
  millis : ℕ → Timeout
  refused : Text → Timeout

-- `Result<Option<Duration>, String>`.
pub data RequestTimeout : Type 0 where
  limit : ℕ → RequestTimeout
  unbounded : RequestTimeout
  misconfigured : Text → RequestTimeout

abbrev pub startup_request_timeout : ℕ
startup_request_timeout = 20000

abbrev pub startup_metadata_request_timeout : ℕ
startup_metadata_request_timeout = 10000

abbrev pub positive_millis : Text → Text → Option ℕ → Timeout
positive_millis env_name value none = refused (
    env_name
    ++ (codes " must be a positive integer number of milliseconds, got `" ++ (value ++ codes "`")))
positive_millis env_name value (some n) =
    if n == 0
    then refused (env_name ++ codes " must be a positive integer number of milliseconds, got `0`")
    else millis n

unfoldable pub parse_timeout_override : Text → Option Text → ℕ → Timeout
parse_timeout_override env_name none fallback = millis fallback
parse_timeout_override env_name (some value) fallback =
    positive_millis env_name value (parse_u64 (trim value))

-- `configured_timeout`, with `timeout_override_value` in it; the second argument is what the
-- environment has under the name.
unfoldable pub configured_timeout : Text → EnvVar → ℕ → Timeout
unfolding parse_timeout_override
configured_timeout env_name (present value) fallback =
    parse_timeout_override env_name (some value) fallback
configured_timeout env_name not_present fallback = parse_timeout_override env_name none fallback
configured_timeout env_name not_unicode fallback = refused (
    env_name ++ codes " must be valid Unicode containing a positive integer number of milliseconds")

-- `.map(Some)`.
abbrev pub map_limit : Timeout → RequestTimeout
map_limit (millis n) = limit n
map_limit (refused why) = misconfigured why

abbrev pub startup_methods : List Text
startup_methods =
    codes "initialize"
    ∷ codes "thread/start"
    ∷ codes "thread/resume"
    ∷ codes "thread/list"
    ∷ codes "thread/compact/start"
    ∷ codes "turn/start"
    ∷ []

abbrev pub metadata_methods : List Text
metadata_methods =
    codes "model/list"
    ∷ codes "account/rateLimits/read"
    ∷ codes "account/read"
    ∷ codes "thread/read"
    ∷ codes "plugin/list"
    ∷ []

abbrev pub startup_timeout_env : Text
startup_timeout_env = codes "CODEX_ACP_STARTUP_TIMEOUT_MS"

abbrev pub metadata_timeout_env : Text
metadata_timeout_env = codes "CODEX_ACP_STARTUP_METADATA_TIMEOUT_MS"

-- The environment is a function.
unfoldable pub request_timeout : (Text → EnvVar) → Text → RequestTimeout
request_timeout env method_name =
    if any (text_eq method_name) startup_methods
    then map_limit
        (configured_timeout startup_timeout_env (env startup_timeout_env) startup_request_timeout)
    else if any (text_eq method_name) metadata_methods
    then map_limit (
        configured_timeout metadata_timeout_env (env metadata_timeout_env)
          startup_metadata_request_timeout)
    else unbounded

parse_digits_bound :
    (w acc : ℕ) (s : Text) (n : ℕ) → acc < w → parse_digits w acc s ≡ some n → n < w
unfolding parse_digits
parse_digits_bound w acc [] n lt h = ground arith
parse_digits_bound w acc (c ∷ cs) n lt h =
    ground (arith, parse_digits_bound w (acc * 10 + (c - b'0')) cs n)

parse_unsigned_bound : (w : ℕ) (s : Text) (n : ℕ) → 0 < w → parse_unsigned w s ≡ some n → n < w
unfolding parse_unsigned parse_nonempty
parse_unsigned_bound w [] n lt h = ground arith
parse_unsigned_bound w (c ∷ []) n lt h = ground (arith, parse_digits_bound w 0 (c ∷ []) n lt)
parse_unsigned_bound w (c ∷ d ∷ cs) n lt h =
    ground (arith, parse_digits_bound w 0 (c ∷ d ∷ cs) n lt, parse_digits_bound w 0 (d ∷ cs) n lt)

configured_bound :
    (env_name : Text) (v : EnvVar) (fallback n : ℕ)
    → 0 < fallback
    → fallback < 2 ^ 64
    → configured_timeout env_name v fallback ≡ millis n
    → (0 < n) × (n < 2 ^ 64)
unfolding configured_timeout parse_timeout_override
configured_bound env_name (present value) fallback n pos fits h =
    elim (Option-cases (parse_u64 (trim value))) [
      | inl e ↦ ground (arith, e)
      | inr (m, e) ↦ ground (arith, e, parse_unsigned_bound (2 ^ 64) (trim value) m)
    ]
configured_bound env_name not_present fallback n pos fits h = ground arith
configured_bound env_name not_unicode fallback n pos fits h = ground arith

-- Whatever the environment holds, a request that is bounded is given more than no time, and no
-- more milliseconds than a `u64` holds.
pub request_timeout_bounds :
    (env : Text → EnvVar) (method_name : Text) (n : ℕ)
    → request_timeout env method_name ≡ limit n
    → (0 < n) × (n < 2 ^ 64)
unfolding request_timeout
request_timeout_bounds env method_name n h = ground (
  arith,
  configured_bound startup_timeout_env (env startup_timeout_env) startup_request_timeout n,
  configured_bound metadata_timeout_env (env metadata_timeout_env) startup_metadata_request_timeout
      n,
)
