-- ===== src/Ocsp/Options.antt =====
-- ocsp/checker.go, ocsp/client.go, ocsp/designated.go: the options of a checker and their defaults,
-- and the default transport. A transport is a function; the context is left out.
use go_web_eid.Common.{
  ℕ, ◌^◌, Bool, true, false, ◌||◌, not, Option, none, some, List, [], ◌∷◌, ◌==◌, if◌then◌else◌,
  is_empty, take,
}
use go_web_eid.Go.Text.{Text, Bytes, text_eq}
use go_web_eid.Go.Time.{Duration, seconds, minutes}
use go_web_eid.Exceptions.{plain, Result, ok, err}
use go_web_eid.Certificate.X509.{Certificate}
use go_web_eid.Nonce.Memory.{is_unset}

-- Client.Do: the responder's URL, the request and the timeout
abbrev pub Client : Type 0
Client = Text → Bytes → Duration → Result Bytes

-- An http.RoundTripper under http.Client: the status and the body of the answer.
abbrev pub Transport : Type 0
Transport = Text → Bytes → Duration → Result (ℕ × Bytes)

-- The body is read up to this many bytes.
abbrev pub max_body : ℕ
max_body = 2 ^ 20

abbrev pub read_answer : Result (ℕ × Bytes) → Result Bytes
read_answer (err e) = err e
read_answer (ok (status, body)) =
    if not (status == 200)
    then err (plain "OCSP responder returned an HTTP error")
    else ok (take max_body body)

-- HTTPClient.Do
unfoldable pub http_client : Transport → Client
http_client transport url request timeout =
    read_answer (transport url request (if is_unset timeout then seconds 5 else timeout))

-- DesignatedServiceConfiguration
pub record Designated : Type 0 where
  pub url : Text
  pub responder_certificate : Option Certificate
  pub supported_issuers : List Certificate
  pub nonce_disabled : Bool

-- The loop of Supports: Certificate.Equal compares the raw bytes.
unfoldable pub any_equal : Certificate → List Certificate → Bool
any_equal issuer [] = false
any_equal issuer (ca ∷ cas) = text_eq ca.raw issuer.raw || any_equal issuer cas

-- Supports
unfoldable pub supports : Designated → Certificate → Bool
unfolding any_equal
supports d issuer =
    if is_empty d.supported_issuers then true else any_equal issuer d.supported_issuers

-- Options; no client is nil.
pub record Options : Type 0 where
  pub client : Option Client
  pub request_timeout : Duration
  pub designated : Option Designated
  pub nonce_disabled_urls : List Text
  pub allowed_responder_urls : List Text
  pub allowed_response_time_skew : Duration
  pub max_response_this_update_age : Duration

-- Checker, whose options have a client.
pub record Checker : Type 0 where
  pub client : Client
  pub request_timeout : Duration
  pub designated : Option Designated
  pub nonce_disabled_urls : List Text
  pub allowed_responder_urls : List Text
  pub allowed_response_time_skew : Duration
  pub max_response_this_update_age : Duration

abbrev pub or_default : Duration → Duration → Duration
or_default d default = if is_unset d then default else d

abbrev pub client_or : Option Client → Client → Client
client_or none default = default
client_or (some c) default = c

-- DefaultOptions, over the default transport
pub default_options : Transport → Options
default_options transport = record {
  client = some (http_client transport);
  request_timeout = seconds 5;
  designated = none;
  nonce_disabled_urls = [];
  allowed_responder_urls = [];
  allowed_response_time_skew = minutes 15;
  max_response_this_update_age = minutes 2;
}

-- NewChecker
unfoldable pub new_checker : Transport → Options → Checker
unfolding default_options
new_checker transport opts =
    let def = default_options transport in
    record {
      client = client_or opts.client (http_client transport);
      request_timeout = or_default opts.request_timeout def.request_timeout;
      designated = opts.designated;
      nonce_disabled_urls = opts.nonce_disabled_urls;
      allowed_responder_urls = opts.allowed_responder_urls;
      allowed_response_time_skew =
          or_default opts.allowed_response_time_skew def.allowed_response_time_skew;
      max_response_this_update_age =
          or_default opts.max_response_this_update_age def.max_response_this_update_age;
    }
