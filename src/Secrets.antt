-- ===== src/Secrets.antt =====
-- crates/boardproof-secrets/src: broker.rs, memory.rs and env.rs.
use uniclaw.Prelude.{
  ℕ, ◌-◌, Bool, ◌&&◌, ◌||◌, leb, ◌==◌, [], ◌∷◌, ◌++◌, Option, none, some, Result, ok, err, ◌≡◌, ◌≢◌,
  refl, if◌then◌else◌, length, Text, text, Map, lookup, insert, lookup-insert, lookup-insert_other,
}

pub data BrokerError : Type 0 where
  not_found access_denied backend : Text → BrokerError

-- Its `Display`
unfoldable pub broker_error_message : BrokerError → Text
broker_error_message (not_found name) = text "secret not found: " ++ name
broker_error_message (access_denied name) = text "access denied for secret: " ++ name
broker_error_message (backend msg) = text "secret broker backend error: " ++ msg

-- The value, without the zeroing of its bytes when it is dropped.
pub record SecretValue : Type 0 where
  pub bytes : Text

pub record InMemorySecretBroker : Type 0 where
  pub secrets : Map SecretValue

unfoldable pub insert_secret : InMemorySecretBroker → Text → SecretValue → InMemorySecretBroker
insert_secret broker name value = record { secrets = insert name value broker.secrets }

unfoldable pub insert_string : InMemorySecretBroker → Text → Text → InMemorySecretBroker
unfolding insert_secret
insert_string broker name secret = insert_secret broker name (record { bytes = secret })

unfoldable pub registered_count : InMemorySecretBroker → ℕ
registered_count broker = length broker.secrets

abbrev copied : Text → Option SecretValue → Result BrokerError SecretValue
copied name (some v) = ok (record { bytes = v.bytes })
copied name none = err (not_found name)

-- `InMemorySecretBroker::fetch`
unfoldable pub fetch : InMemorySecretBroker → Text → Result BrokerError SecretValue
fetch broker name = copied name (lookup name broker.secrets)

pub record EnvSecretBroker : Type 0 where
  pub prefix : Text

abbrev is_digit_or_upper : ℕ → Bool
is_digit_or_upper c = (leb 48 c && leb c 57) || (leb 65 c && leb c 90)

-- By byte: no byte of a character beyond ASCII is among those that are kept.
unfoldable pub env_chars : Text → Text
env_chars [] = []
env_chars (c ∷ cs) =
    let rest = env_chars cs in
    if c == 46 || c == 45
    then 95 ∷ rest
    else if is_digit_or_upper c
    then c ∷ rest
    else if leb 97 c && leb c 122
    then (c - 32) ∷ rest
    else if c == 95
    then 95 ∷ rest
    else rest

unfoldable pub env_var_name : EnvSecretBroker → Text → Text
env_var_name broker secret_name = broker.prefix ++ env_chars secret_name

-- `std::env::var`
pub data EnvVar : Type 0 where
  present : Text → EnvVar
  not_present not_unicode : EnvVar

abbrev of_env : Text → Text → EnvVar → Result BrokerError SecretValue
of_env name var_name (present value) = ok (record { bytes = value })
of_env name var_name not_present = err (not_found name)
of_env name var_name not_unicode =
    err (backend (text "env var " ++ (var_name ++ text " is not valid UTF-8")))

-- `EnvSecretBroker::fetch`
unfoldable pub fetch_env : (Text → EnvVar) → EnvSecretBroker → Text → Result BrokerError SecretValue
fetch_env env broker name =
    let var_name = env_var_name broker name in of_env name var_name (env var_name)

-- A fetch gives the value registered last under its name, and is otherwise as it was.
insert-fetch :
    (broker : InMemorySecretBroker) (name other : Text) (v : SecretValue)
    → (fetch (insert_secret broker name v) name ≡ ok v)
      × (other ≢ name → fetch (insert_secret broker name v) other ≡ fetch broker other)
unfolding fetch insert_secret
insert-fetch broker name other v = (
  rw (lookup-insert name v broker.secrets) refl,
  λ n. rw (lookup-insert_other other name v broker.secrets n) refl,
)

-- Two different names may be read from one variable.
same_variable :
    (broker : EnvSecretBroker) → env_var_name broker (text "a.b") ≡ env_var_name broker (text "a-b")
unfolding env_var_name env_chars
same_variable broker = refl
