-- ===== src/Handler/Routes/Started.antt =====
-- The in-process store of a new handler after some requests.
use go_web_eid.Common.{◌≡◌, ap, ◌∙◌, Bool, false, if◌then◌else◌, List}
use go_web_eid.Platform.{Platform}
use go_web_eid.Nonce.Memory.{is_unset, default_nonce_ttl, InMemoryStore, new_in_memory_store}
use go_web_eid.Nonce.Memory.Laws.{IsValid}
use go_web_eid.Nonce.Memory.Traces.{run, run-IsValid, session_key-run}
use go_web_eid.Nonce.Memory.Lasting.{ttl-run}
use go_web_eid.Nonce.Generator.{min_nonce_bytes}
use go_web_eid.Handler.Configuration.{Configuration}
use go_web_eid.Handler.Session.{Context, session_key}
use go_web_eid.Handler.Settings.{new_session_store}
use go_web_eid.Handler.Routes.{Request}
use go_web_eid.Handler.Routes.Calls.{all_calls}

module _ (p : Platform) where
  -- The store after some requests.
  abbrev pub store_after : Configuration → List Request → InMemoryStore Context
  store_after cfg rs = run (new_session_store cfg) (all_calls p cfg min_nonce_bytes rs)

  pub store_after-IsValid : (cfg : Configuration) (rs : List Request) → IsValid (store_after cfg rs)
  unfolding new_session_store new_in_memory_store
  store_after-IsValid cfg rs =
      run-IsValid (new_session_store cfg) (all_calls p cfg min_nonce_bytes rs) tt

  pub session_key-store_after :
      (cfg : Configuration) (rs : List Request) → (store_after cfg rs).session_key ≡ session_key
  unfolding new_session_store session_key new_in_memory_store
  session_key-store_after cfg rs =
      session_key-run (new_session_store cfg) (all_calls p cfg min_nonce_bytes rs)

  pub ttl-store_after :
      (cfg : Configuration) (rs : List Request)
      → is_unset cfg.nonce_ttl ≡ false
      → (store_after cfg rs).ttl ≡ cfg.nonce_ttl
  unfolding new_session_store new_in_memory_store
  ttl-store_after cfg rs positive =
      ttl-run (new_session_store cfg) (all_calls p cfg min_nonce_bytes rs)
      ∙ ap (λ (x : Bool). if x then default_nonce_ttl else cfg.nonce_ttl) positive
