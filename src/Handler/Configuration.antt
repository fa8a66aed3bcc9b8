-- ===== src/Handler/Configuration.antt =====
-- azugo/config.go: the settings of a deployment.
use go_web_eid.Common.{Bool, true, false, List, [], ◌∷◌, ◌++◌}
use go_web_eid.Go.Text.{Text, codes}
use go_web_eid.Go.Time.{Duration, minutes, seconds}

-- Configuration
pub record Configuration : Type 0 where
  pub origins : List Text
  pub trusted_ca_certs_path : Text
  pub nonce_ttl : Duration
  pub ocsp_enabled : Bool
  pub ocsp_request_timeout : Duration
  pub designated_ocsp_url : Text
  pub ocsp_nonce_disabled_urls : List Text
  pub session_cookie_name : Text
  pub signing_hash_preference : List Text
  pub allow_insecure_localhost : Bool
  pub enforce_host_header : Bool
  pub ocsp_allowed_responder_urls : List Text
  pub disallowed_policy_oids : List Text
  pub signing_accepted_policy_oids : List Text

-- A value that viper has for a key.
pub data Setting : Type 0 where
  duration : Duration → Setting
  flag : Bool → Setting
  text : Text → Setting
  texts : List Text → Setting

-- A call of viper: SetDefault or BindEnv.
pub data ViperCall : Type 0 where
  set_default : Text → Setting → ViperCall
  bind_env : Text → Text → ViperCall

-- Bind, as the calls of viper that it makes.
unfoldable pub bind : Text → List ViperCall
bind prefix =
    set_default (prefix ++ codes ".nonce_ttl") (duration (minutes 5))
    ∷ set_default (prefix ++ codes ".ocsp_enabled") (flag true)
    ∷ set_default (prefix ++ codes ".ocsp_request_timeout") (duration (seconds 5))
    ∷ set_default (prefix ++ codes ".session_cookie_name") (text (codes "WEBEID_SESSION"))
    ∷ set_default (prefix ++ codes ".signing_hash_preference")
        (texts (codes "SHA-256" ∷ codes "SHA-384" ∷ codes "SHA-512" ∷ []))
    ∷ set_default (prefix ++ codes ".allow_insecure_localhost") (flag false)
    ∷ set_default (prefix ++ codes ".enforce_host_header") (flag true)
    ∷ bind_env (prefix ++ codes ".origins") (codes "WEBEID_ORIGIN")
    ∷ bind_env (prefix ++ codes ".trusted_ca_certs_path") (codes "WEBEID_TRUSTED_CA_CERTS_PATH")
    ∷ bind_env (prefix ++ codes ".nonce_ttl") (codes "WEBEID_NONCE_TTL")
    ∷ bind_env (prefix ++ codes ".ocsp_enabled") (codes "WEBEID_OCSP_ENABLED")
    ∷ bind_env (prefix ++ codes ".ocsp_request_timeout") (codes "WEBEID_OCSP_REQUEST_TIMEOUT")
    ∷ bind_env (prefix ++ codes ".designated_ocsp_url") (codes "WEBEID_DESIGNATED_OCSP_URL")
    ∷ bind_env (prefix ++ codes ".ocsp_nonce_disabled_urls")
        (codes "WEBEID_OCSP_NONCE_DISABLED_URLS")
    ∷ bind_env (prefix ++ codes ".session_cookie_name") (codes "WEBEID_SESSION_COOKIE_NAME")
    ∷ bind_env (prefix ++ codes ".signing_hash_preference") (codes "WEBEID_SIGNING_HASH_PREFERENCE")
    ∷ bind_env (prefix ++ codes ".allow_insecure_localhost")
        (codes "WEBEID_ALLOW_INSECURE_LOCALHOST")
    ∷ bind_env (prefix ++ codes ".enforce_host_header") (codes "WEBEID_ENFORCE_HOST_HEADER")
    ∷ bind_env (prefix ++ codes ".ocsp_allowed_responder_urls")
        (codes "WEBEID_OCSP_ALLOWED_RESPONDERS")
    ∷ bind_env (prefix ++ codes ".disallowed_policy_oids") (codes "WEBEID_DISALLOWED_POLICY_OIDS")
    ∷ bind_env (prefix ++ codes ".signing_accepted_policy_oids")
        (codes "WEBEID_SIGNING_ACCEPTED_POLICY_OIDS")
    ∷ []
