-- ===== src/Ocsp/Responder/Allowed.antt =====
-- Which responders an allowlist names.
use go_web_eid.Common.{
  true, false, ◌≡◌, ◌≢◌, refl, sym, subst, ◌∙◌, ◌↔◌, ◌⊎◌, inl, inr, List, [], ◌∷◌, arith, Any,
  Bool-cases, List-cases,
}
use go_web_eid.Go.Text.{Text, Unicode, text_eq_iff, to_lower, trim_suffix, trim_space}
use go_web_eid.Go.Text.Scheme.{HasScheme, contains_scheme_iff}
use go_web_eid.Go.Url.{Url, ParseUrl}
use go_web_eid.Exceptions.{GoError, ok, err, Result-cases}
use go_web_eid.Ocsp.Responder.{
  norm, host_of, equal_fold_trim, entry_allows, any_allows, has_scheme, is_responder_allowed,
}

module _ (u : Unicode) (parse : ParseUrl) where
  -- The same text up to case, spaces around it and one slash at the end.
  abbrev pub FoldTrim : Text → Text → Type 0
  FoldTrim a b =
      to_lower u (trim_suffix b'/' (trim_space u a))
      ≡ to_lower u (trim_suffix b'/' (trim_space u b))

  -- A text, up to spaces around it, is a URL with this host, in lower case and without its port.
  abbrev pub HasHost : Text → Text → Type 0
  HasHost raw h =
      (v : Url) × (parse (trim_space u raw) ≡ ok v) × (v.host ≢ []) × (h ≡ to_lower u v.hostname)

  abbrev pub NoHost : Text → Type 0
  NoHost raw =
      ((e : GoError) × (parse (trim_space u raw) ≡ err e))
      ⊎ ((v : Url) × (parse (trim_space u raw) ≡ ok v) × (v.host ≡ []))

  host_of_lem :
      (raw : Text) → HasHost raw (host_of u parse raw) ⊎ (NoHost raw × (host_of u parse raw ≡ []))
  unfolding host_of
  host_of_lem raw = elim (Result-cases (parse (trim_space u raw))) [
    | inr (e, failed) ↦ inr (inl (e, failed), ground arith)
    | inl (v, parsed) ↦ elim (List-cases v.host) [
      | inl empty ↦ inr (inr (v, parsed, empty), ground arith)
      | inr (c, cs, filled) ↦ inl (v, parsed, (λ none. cc), ground arith)
    ]
  ]

  host_of-HasHost : (raw h : Text) → HasHost raw h → host_of u parse raw ≡ h
  unfolding host_of
  host_of-HasHost raw h (v, parsed, filled, same) = ground arith

  host_of-NoHost : (raw : Text) → NoHost raw → host_of u parse raw ≡ []
  unfolding host_of
  host_of-NoHost raw (inl (e, failed)) = ground arith
  host_of-NoHost raw (inr (v, parsed, empty)) = ground arith

  -- Both are URLs with the same host.
  abbrev pub SameHost : Text → Text → Type 0
  SameHost a b = (h : Text) × (h ≢ []) × HasHost a h × HasHost b h

  filled-HasHost : (raw h : Text) → h ≢ [] → host_of u parse raw ≡ h → HasHost raw h
  filled-HasHost raw h filled same = elim (host_of_lem raw) [
    | inl has ↦ subst (HasHost raw) same has
    | inr (hostless, empty) ↦ absurd (filled (sym same ∙ empty))
  ]

  host_of-SameHost :
      (a b : Text)
      → ((host_of u parse a ≢ []) × (host_of u parse a ≡ host_of u parse b)) ↔ SameHost a b
  host_of-SameHost a b = (
    λ (filled, same). (
      host_of u parse a,
      filled,
      filled-HasHost a (host_of u parse a) filled refl,
      filled-HasHost b (host_of u parse a) filled (sym same),
    ),
    λ (h, filled, left, right). (
      λ empty. filled (sym (host_of-HasHost a h left) ∙ empty),
      host_of-HasHost a h left ∙ sym (host_of-HasHost b h right),
    ),
  )

  -- A text without a scheme that is the host of the URL, or the empty text if that has none.
  abbrev pub IsBareHost : Text → Text → Type 0
  IsBareHost url allowed =
      (¬ HasScheme allowed)
      × (((h : Text) × HasHost url h × FoldTrim allowed h) ⊎ (NoHost url × FoldTrim allowed []))

  host_of-IsBareHost :
      (url allowed : Text)
      → ((has_scheme allowed ≡ false) × FoldTrim allowed (host_of u parse url))
        ↔ IsBareHost url allowed
  host_of-IsBareHost url allowed = (
    λ (bare, same). (
      λ has. ground (arith, (contains_scheme_iff allowed).1 has),
      elim (host_of_lem url) [
        | inl has ↦ inl (host_of u parse url, has, same)
        | inr (hostless, empty) ↦ inr (hostless, subst (FoldTrim allowed) empty same)
      ],
    ),
    λ (bare, host). (
      elim (Bool-cases (has_scheme allowed)) [
        | inl has ↦ absurd (bare ((contains_scheme_iff allowed).0 has))
        | inr without ↦ without
      ],
      elim host [
        | inl (h, has, same) ↦ subst (FoldTrim allowed) (sym (host_of-HasHost url h has)) same
        | inr (hostless, same) ↦ subst (FoldTrim allowed) (sym (host_of-NoHost url hostless)) same
      ],
    ),
  )

  -- One way for an entry to name a responder: the same URL up to case, spaces and one slash at the
  -- end; a URL with the same host; or the host by itself.
  abbrev pub Names : Text → Text → Type 0
  Names url allowed = FoldTrim allowed url ⊎ (SameHost allowed url ⊎ IsBareHost url allowed)

  entry_allows_cases :
      (url allowed : Text)
      → (entry_allows u parse url (host_of u parse url) allowed ≡ true) ↔ (
          FoldTrim allowed url
          ⊎ (((host_of u parse allowed ≢ []) × (host_of u parse allowed ≡ host_of u parse url))
              ⊎ ((has_scheme allowed ≡ false) × FoldTrim allowed (host_of u parse url))))
  unfolding entry_allows equal_fold_trim
  entry_allows_cases url allowed = ground (
    arith,
    text_eq_iff (norm u allowed) (norm u url),
    text_eq_iff (host_of u parse allowed) (host_of u parse url),
    text_eq_iff (norm u allowed) (norm u (host_of u parse url)),
  )

  entry_allows_iff :
      (url allowed : Text)
      → (entry_allows u parse url (host_of u parse url) allowed ≡ true) ↔ Names url allowed
  entry_allows_iff url allowed = (
    λ h. elim ((entry_allows_cases url allowed).0 h) [
      | inl same ↦ inl same
      | inr (inl hosts) ↦ inr (inl ((host_of-SameHost allowed url).0 hosts))
      | inr (inr bare) ↦ inr (inr ((host_of-IsBareHost url allowed).0 bare))
    ],
    λ h. (entry_allows_cases url allowed).1 (elim h [
      | inl same ↦ inl same
      | inr (inl hosts) ↦ inr (inl ((host_of-SameHost allowed url).1 hosts))
      | inr (inr bare) ↦ inr (inr ((host_of-IsBareHost url allowed).1 bare))
    ]),
  )

  any_allows_iff :
      (url : Text) (list : List Text)
      → (any_allows u parse url (host_of u parse url) list ≡ true) ↔ Any (Names url) list
  unfolding any_allows
  any_allows_iff url [] = (λ h. cc, λ h. elim h [ ])
  any_allows_iff url (allowed ∷ rest) =
      ground (arith, entry_allows_iff url allowed, any_allows_iff url rest)

  -- A responder's URL passes exactly if the allowlist is empty or one of its entries names it.
  pub is_responder_allowed_iff :
      (list : List Text) (url : Text)
      → (is_responder_allowed u parse list url ≡ true) ↔ ((list ≡ []) ⊎ Any (Names url) list)
  unfolding is_responder_allowed
  is_responder_allowed_iff [] url = (λ h. inl refl, λ h. refl)
  is_responder_allowed_iff (allowed ∷ rest) url = (
    λ h. inr ((any_allows_iff url (allowed ∷ rest)).0 h),
    λ h. elim h [ inl empty ↦ cc | inr named ↦ (any_allows_iff url (allowed ∷ rest)).1 named ],
  )
