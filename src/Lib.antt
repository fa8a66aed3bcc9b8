-- ===== src/Lib.antt =====
-- Verification library of go-web-eid: Web eID authentication and card signing.
--
-- What the program does. A site hands a challenge nonce to the browser (nonce.go, store.go),
-- keeps it for the session (store_memory.go, redisstore/store.go), and gets an authentication
-- token back (token.go), which the validator checks (validator.go, validator_options.go): the
-- certificate in it (certificate/checks.go, certificate/policy.go, certificate/data.go), its
-- chain to the trusted set (certificate/trust.go), its revocation (ocsp/), and its signature
-- over the origin and the nonce (signature/verify.go). After a validation the service may issue
-- a signed assertion of the identity (assertion/assertion.go). The signing operations
-- (signing/) check a signing certificate, choose a hash function and verify the card's
-- signature. The typed errors, each with a status and a message for clients, are those of
-- exceptions/errors.go. The HTTP layer (azugo/) builds all of this from a configuration and
-- offers it as routes, most of them behind a middleware that keeps an anonymous session in a
-- cookie.
--
-- Which module models which part. Each Go function is a definition of the same name in snake
-- case, in the module that stands for its file:
--
-- - Exceptions: exceptions/errors.go; the Go error value, the 16 typed errors, and the result
--   type of fallible functions.
-- - Token: token.go, token_errors.go.
-- - Nonce.Challenge, Nonce.Store: store.go. Nonce.Memory: store_memory.go. Nonce.Generator:
--   nonce.go. Nonce.Redis: redisstore/store.go; Nonce.Redis.Adapter: its adapter of a go-redis
--   client; Nonce.Redis.Agreement: it beside the in-process store.
-- - Certificate.Checks, Certificate.Policy, Certificate.Subject, Certificate.Trust: the files
--   of certificate/. Certificate.X509: the part of crypto/x509 that the code reads.
-- - Signature.Algorithm, Signature.Verify: signature/verify.go.
-- - Ocsp.Errors, Ocsp.Options, Ocsp.Request, Ocsp.Responder, Ocsp.Freshness, Ocsp.Check: the
--   files of ocsp/. Ocsp.Responder.Allowed: what the allowlist means.
-- - Validator.Origin, Validator.Validate: validator.go. Validator.Builder:
--   validator_options.go.
-- - Signing.HashFunction, Signing.SigningCertificate, Signing.Signer, Signing.SignatureValue:
--   the files of signing/.
-- - Assertion.Claims, Assertion.Keys, Assertion.Issuer, Assertion.Verifier, Assertion.Jwks:
--   assertion/assertion.go. Assertion.RoundTrip: from Issue to Verify.
-- - Handler.Configuration: azugo/config.go. Handler.Session: azugo/session.go. Handler.Subject:
--   azugo/subject.go. Handler.Settings, Handler.Trust, Handler.Build: azugo/handler.go, the
--   options, the loading of the trusted set, and New with ReloadTrust.
-- - Handler.Authentication, Handler.Signing, Handler.Finalize: the handlers of azugo/routes.go
--   with the types of azugo/dto.go. Handler.Routes: Bind, as one function that serves any
--   request; Handler.Routes.Calls, Handler.Routes.Issued, Handler.Routes.Leaving,
--   Handler.Routes.Started and Handler.Routes.Answers say what requests do to the nonce store,
--   and Handler.Routes.Login what follows for logins.
-- - Handler.Concurrent: requests that are served at the same time. Handler.Concurrent.Task: a
--   request as a tree of atomic accesses to the nonce store and the trusted set, and schedules
--   of several. Handler.Concurrent.Requests: the handlers of azugo/routes.go and ReloadTrust in
--   that form, over Validator.Validate.Loads and Signing.Signer.Loads, which keep the two loads
--   of the trusted set in Validate and PrepareSigning apart. Handler.Concurrent.Alone: tasks
--   that run alone. Handler.Concurrent.Sound, Handler.Concurrent.Outcome,
--   Handler.Concurrent.Answered and Handler.Concurrent.Logins: what a request is answered for.
--   Handler.Concurrent.Meanwhile: a reload in the middle of a validation.
--   Handler.Concurrent.Credit, Handler.Concurrent.Tally and Handler.Concurrent.Spending: logins
--   and challenges counted.
-- - Go: what the code uses of Go itself: strings as lists of bytes, times as nanoseconds, maps,
--   Atoi, big integers, base64 and URLs. Common: shared names, tests and lemmas. Platform: all
--   interfaces to code outside the repository in one record. Tests: concrete inputs.
--
-- How. State is passed explicitly: a method that changes its receiver answers the new receiver
-- beside its result. A pointer that may be nil is an Option; a Go function that returns an
-- error returns a Result. Clocks, entropy and request contexts are arguments. A method that
-- holds a mutex, or swaps an atomic pointer, is one step; an interleaving of calls is a list of
-- them, and one of requests a schedule that says which request takes its next step. A trust
-- store has an address, which tells it from another: the store that the handler points at is
-- kept in the handler as it now is, its validator and its signer read it when they are called
-- if they have its address, and New is shown to give it to both. The tasks of
-- Handler.Concurrent are those of such a handler: they load the trusted set from the handler's
-- store. Loops recurse on the list that they range over, so no fuel is needed. Native numbers
-- stand for Go's non-negative integers; a time is an unbounded count of nanoseconds, a Duration
-- has 64 bits, and Sub, sums and negations of durations, and time.Unix, saturate or wrap as in
-- Go.
--
-- Parameters. Certificate parsing and chain building, hash functions and signature primitives,
-- base64, JSON, URL parsing, ASN.1, the OCSP response parser, HTTP, the Redis client, and what
-- the functions of `strings` answer beyond ASCII are arguments; what a theorem needs of them is
-- a named hypothesis (NeedsRoots, IsCodec, IsPoint, DocReadsBack, IsRedis, IsGoRedis, IsServer,
-- ReadsBack, IsEcdsa, HeaderReadsBack, ClaimsReadBack).
--
-- Not modelled: the azugo framework with the reading of bodies, their struct validation and the
-- writing of answers, the options that replace a clock or a generator of token identifiers, the
-- texts that errors print for logs, waiting for a mutex or for the network (a step of a request
-- can always be taken), and the saturation of time.Time at the ends of its range of years.
pub mod Common
pub mod Go
pub mod Exceptions
pub mod Certificate
pub mod Nonce
pub mod Signature
pub mod Ocsp
pub mod Token
pub mod Platform
pub mod Validator
pub mod Signing
pub mod Assertion
pub mod Handler
pub mod Tests
