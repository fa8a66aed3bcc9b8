-- ===== src/Tests/Certificates.antt =====
-- Certificate checks, policies and trust on the small platform.
use go_web_eid.Common.{true, ◌≡◌, refl, some, [], ◌∷◌, arith}
use go_web_eid.Go.Text.{text_eq, has_prefix}
use go_web_eid.Exceptions.{ok}
use go_web_eid.Certificate.Checks.{check_disallowed_policies, extract_policies}
use go_web_eid.Certificate.Checks.Laws.{check_disallowed_policies_iff}
use go_web_eid.Certificate.Policy.{check_same_natural_person}
use go_web_eid.Certificate.Policy.Laws.{check_same_natural_person_lem}
use go_web_eid.Certificate.Trust.{new_trust_store, new_trust_snapshot, reload, fill_pool}
use go_web_eid.Certificate.Trust.Laws.{start, again, IsFilled, new_trust_store-IsFilled}
use go_web_eid.Tests.World.{card, ca, x509, trust, policy}

policies : extract_policies x509 card ≡ ok (policy ∷ [])
unfolding extract_policies text_eq
policies = refl

check_disallowed_policies_iff_example :
    check_disallowed_policies x509 card ((1 ∷ 2 ∷ []) ∷ []) ≡ ok tt
check_disallowed_policies_iff_example =
    (check_disallowed_policies_iff x509 card (1 ∷ 2 ∷ []) []).1
      (policy ∷ [], policies, λ shared. ground arith)

check_same_natural_person_lem_example :
    check_same_natural_person (some card) (some card) ≡ (true, ok tt)
unfolding has_prefix
check_same_natural_person_lem_example =
    (check_same_natural_person_lem (some card) (some card)).0.1 (refl, refl, refl)

new_trust_store-IsFilled_example : IsFilled (reload (reload trust []).1 (card ∷ ca ∷ [])).1
unfolding new_trust_store new_trust_snapshot fill_pool
new_trust_store-IsFilled_example =
    new_trust_store-IsFilled 0 (ca ∷ []) trust (reload (reload trust []).1 (card ∷ ca ∷ [])).1 refl
      (again (card ∷ ca ∷ []) (again [] start))
