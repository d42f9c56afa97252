-- ===== src/Core/Bearer/Access.antt =====
-- Exactly which requests `authorize` lets through.
use mangle_apis.Base.{
  ◌≡◌, ◌↔◌, refl, ap, ◌∙◌, inl, inr, Bool, true, Option, none, some, [], ◌∷◌, ◌++◌, arith, drop,
  Bool-cases, Option-cases,
}
use mangle_apis.Base.Outcome.{ok}
use mangle_apis.Base.Text.{Text, bytes, starts_with, starts_with-append, starts_with_split}
use mangle_apis.Core.Bearer.{BearerAuth, Request, contains, check_header, check_query, authorize}

contains_of_starts : (s p : Text) → starts_with s p ≡ true → contains s p ≡ true
unfolding contains
contains_of_starts [] p h = h
contains_of_starts (c ∷ s) p h = rw h

contains-append : (pre p suf : Text) → contains (pre ++ (p ++ suf)) p ≡ true
unfolding contains
contains-append [] p suf = contains_of_starts (p ++ suf) p (starts_with-append p suf)
contains-append (c ∷ pre) p suf = ground (arith, contains-append pre p suf)

contains_split :
    (s p : Text) → contains s p ≡ true → (pre : Text) × (suf : Text) × (s ≡ pre ++ (p ++ suf))
unfolding contains
contains_split [] p h = let (rest, e) = starts_with_split [] p h in ([], rest, e)
contains_split (c ∷ s) p h = elim (Bool-cases (starts_with (c ∷ s) p)) [
  | inl here ↦ let (rest, e) = starts_with_split (c ∷ s) p here in ([], rest, e)
  | inr later ↦
      let (pre, suf, e) = contains_split s p (rw later at h) in (c ∷ pre, suf, ap (◌∷◌ c) e)
]

module _ (to_str : Text → Option Text) (constant_time_eq : Text → Text → Bool)
    (same_bytes : (s t : Text) → (constant_time_eq s t ≡ true) ↔ (s ≡ t)) where
  -- The ways in: a public path, the bearer token in the header, or no header and the token in the query.
  pub data Grants (auth : BearerAuth) (request : Request) : Type 0 where
    by_path : auth.public_paths request.path ≡ true → Grants auth request
    by_header :
        (value : Text)
        → request.authorization ≡ some value
        → to_str value ≡ some (bytes "Bearer " ++ auth.api_token)
        → Grants auth request
    by_query :
        (query token pre suf : Text)
        → request.authorization ≡ none
        → request.query ≡ some query
        → to_str auth.api_token ≡ some token
        → query ≡ pre ++ ((bytes "api_token=" ++ token) ++ suf)
        → Grants auth request

  granted_by_header :
      (auth : BearerAuth) (value : Text)
      → check_header to_str constant_time_eq auth value ≡ ok tt
      → to_str value ≡ some (bytes "Bearer " ++ auth.api_token)
  unfolding check_header
  granted_by_header auth value h = elim (Option-cases (to_str value)) [
    | inl unreadable ↦ absurd (ground arith)
    | inr (header, read) ↦ elim (Bool-cases (starts_with header (bytes "Bearer "))) [
      | inr other ↦ absurd (ground arith)
      | inl bearer ↦
          let (rest, e) = starts_with_split header (bytes "Bearer ") bearer in
          let token : drop 7 header ≡ rest = ap (drop 7) e in
          let same : constant_time_eq (drop 7 header) auth.api_token ≡ true = ground arith in
          let it : rest ≡ auth.api_token = (same_bytes rest auth.api_token).0 (rw token at same) in
          read ∙ ap (λ (t : Text). some t) (e ∙ ap (λ (t : Text). bytes "Bearer " ++ t) it)
    ]
  ]

  granted_by_query :
      (auth : BearerAuth) (query : Text)
      → check_query to_str constant_time_eq auth (some query) ≡ ok tt
      → (token : Text) × (to_str auth.api_token ≡ some token)
        × (contains query (bytes "api_token=" ++ token) ≡ true)
  unfolding check_query
  granted_by_query auth query h = ground arith

  granted :
      (auth : BearerAuth) (request : Request)
      → authorize to_str constant_time_eq auth request ≡ ok tt
      → Grants auth request
  unfolding authorize
  granted auth request h = elim (Bool-cases (auth.public_paths request.path)) [
    | inl public ↦ by_path public
    | inr guarded ↦ elim (Option-cases request.authorization) [
      | inr (value, p) ↦ by_header value p (granted_by_header auth value (ground arith))
      | inl p ↦ elim (Option-cases request.query) [
        | inl bare ↦ absurd (no_query (ground arith) bare)
        | inr (query, q) ↦
            let (token, r, found) = granted_by_query auth query (ground arith) in
            let (pre, suf, e) = contains_split query (bytes "api_token=" ++ token) found in
            by_query query token pre suf p q r e
      ]
    ]
  ]
    where
      no_query :
          check_query to_str constant_time_eq auth request.query ≡ ok tt → request.query ≡ none → ⊥
      no_query q bare = unfold check_query in ground arith

  grants_ok :
      (auth : BearerAuth) (request : Request)
      → Grants auth request
      → authorize to_str constant_time_eq auth request ≡ ok tt
  unfolding authorize check_header check_query
  grants_ok auth request (by_path p) = rw p
  grants_ok auth request (by_header value p q) =
      let same : constant_time_eq auth.api_token auth.api_token ≡ true =
        (same_bytes auth.api_token auth.api_token).1 refl in
      let starts : starts_with (bytes "Bearer " ++ auth.api_token) (bytes "Bearer ") ≡ true =
        starts_with-append (bytes "Bearer ") auth.api_token in
      elim (Bool-cases (auth.public_paths request.path)) [
        | inl public ↦ rw public
        | inr guarded ↦ rw (guarded, p) (rw (q, check_header) (rw (starts, same)))
      ]
  grants_ok auth request (by_query query token pre suf p q r e) =
      let found : contains query (bytes "api_token=" ++ token) ≡ true =
        rw e (contains-append pre (bytes "api_token=" ++ token) suf) in
      elim (Bool-cases (auth.public_paths request.path)) [
        | inl public ↦ rw public
        | inr guarded ↦ rw (guarded, p, q, check_query) (rw (r, found))
      ]

  -- A request is let through exactly when its path is public, or its header is `Bearer ` and the API
  -- token, or it has no such header and its query has `api_token=` and the API token somewhere in it.
  pub authorize_iff :
      (auth : BearerAuth) (request : Request)
      → (authorize to_str constant_time_eq auth request ≡ ok tt) ↔ Grants auth request
  authorize_iff auth request = (granted auth request, grants_ok auth request)
