-- ===== src/Core/Token/Request.antt =====
-- `FromRequestParts for VerifiedToken`: the token of a request, from its header or from its query.
-- The header's name and the tokens' length are those of a `HeaderTokenConfig`. `headers` is the
-- lookup of a request's headers, and `from_str` is `HeaderValue::from_str`.
use mangle_apis.Base.{
  ℕ, zero, suc, ◌+◌, ◌-◌, ◌≤◌, ◌<◌, ◌≡◌, inl, inr, Bool, true, ◌&&◌, ◌||◌, Option, none, some,
  arith, leb, ltb, if◌then◌else◌, Bool-cases, Option-cases, [], ◌∷◌, ◌++◌, length, take, drop, ◌==◌,
  map, get_or, not, take-append, drop-append, length-append, All,
}
use mangle_apis.Base.Outcome.{Outcome, ok, err, panic}
use mangle_apis.Base.Text.{Text, starts_with}
use mangle_apis.Core.Token.BiMap.{BiMapApi}
use mangle_apis.Core.Token.{TokenEntry, VerifiedToken, TokenGranter, verify_token}

pub data TokenVerificationError : Type 0 where
  missing_token invalid_token_length invalid_token : TokenVerificationError

-- `str::find` of the standard library: the first position at which the pattern stands.
unfoldable pub find_from : ℕ → Text → Text → Option ℕ
find_from i [] pat = if starts_with [] pat then some i else none
find_from i (c ∷ s) pat =
    let rest = find_from (suc i) s pat in if starts_with (c ∷ s) pat then some i else rest

abbrev pub find : Text → Text → Option ℕ
find s pat = find_from 0 s pat

-- `str::is_char_boundary`: the byte at the position does not continue a character.
unfoldable pub is_char_boundary : Text → ℕ → Bool
is_char_boundary s i =
    i == 0
    || i == length s
    || (ltb i (length s) && not (leb 128 (get_or s i 0) && ltb (get_or s i 0) 192))

-- `str::get` of a range.
unfoldable pub get_range : Text → ℕ → ℕ → Option Text
unfolding is_char_boundary
get_range s a b =
    if leb a b && leb b (length s) && is_char_boundary s a && is_char_boundary s b
    then some (take (b - a) (drop a s))
    else none

abbrev pub IsAscii : Text → Type 0
IsAscii = All (λ c. c < 128)

get_or-lt : (s : Text) (i : ℕ) → IsAscii s → get_or s i 0 < 128
get_or-lt [] i h = omega arith
get_or-lt (c ∷ s) zero h = h.0
get_or-lt (c ∷ s) (suc i) h = get_or-lt s i h.1

-- In ASCII every position is a boundary.
boundary_of_IsAscii : (s : Text) (i : ℕ) → IsAscii s → i ≤ length s → is_char_boundary s i ≡ true
unfolding is_char_boundary
boundary_of_IsAscii s i h le = ground (arith, get_or-lt s i h)

get_range-middle :
    (front token rest : Text)
    → IsAscii (front ++ (token ++ rest))
    → get_range (front ++ (token ++ rest)) (length front) (length front + length token) ≡ some token
unfolding get_range
get_range-middle front token rest h =
    let s = front ++ (token ++ rest) in
    let total : length s ≡ length front + (length token + length rest) =
      omega (arith, length-append front (token ++ rest), length-append token rest) in
    let span : length front + length token - length front ≡ length token = omega arith in
    let ordered : leb (length front) (length front + length token) ≡ true = ground arith in
    let inside : leb (length front + length token) (length s) ≡ true = ground arith in
    rw (
      ordered,
      inside,
      boundary_of_IsAscii s (length front) h (omega arith),
      boundary_of_IsAscii s (length front + length token) h (omega arith),
      span,
      drop-append front (token ++ rest),
      take-append token rest,
    )

-- `str::to_lowercase`, for ASCII.
unfoldable pub to_lowercase : Text → Text
to_lowercase = map (λ c. if leb b'A' c && leb c b'Z' then c + 32 else c)

-- `HeaderTokenConfig`.
pub record HeaderTokenConfig : Type 0 where
  pub header_name : Text
  pub token_length : ℕ

pub record Parts : Type 0 where
  pub headers : Text → Option Text
  pub query : Option Text

module _ {I : Type 0} (B : BiMapApi Text I (TokenEntry I) (λ e. e.identifier)) where
  -- `.verify_token(token).ok_or(InvalidToken)`.
  abbrev or_invalid :
      TokenGranter B × Option (VerifiedToken I)
      → TokenGranter B × Outcome TokenVerificationError (VerifiedToken I)
  or_invalid (g, none) = (g, err invalid_token)
  or_invalid (g, some v) = (g, ok v)

  module _ (config : HeaderTokenConfig) (from_str : Text → Option Text) where
    -- The part of the query that starts at `idx + 12`, which is as long as `login-token=`.
    unfoldable pub from_query :
        Text
        → ℕ
        → TokenGranter B
        → TokenGranter B × Outcome TokenVerificationError (VerifiedToken I)
    from_query query idx g = elim (get_range query (idx + 12) (idx + 12 + config.token_length)) [
      | none ↦ (g, err invalid_token_length)
      | some token ↦ elim (from_str token) [
        | none ↦ (g, panic)
        | some value ↦ or_invalid (verify_token B value g)
      ]
    ]

    unfoldable pub from_request_parts :
        Parts → TokenGranter B → TokenGranter B × Outcome TokenVerificationError (VerifiedToken I)
    from_request_parts parts g = elim (parts.headers config.header_name) [
      | some token ↦
          if length token == config.token_length
          then or_invalid (verify_token B token g)
          else (g, err invalid_token_length)
      | none ↦ elim parts.query [
        | none ↦ (g, err missing_token)
        | some query ↦ elim (find query (to_lowercase config.header_name)) [
          | none ↦ (g, err missing_token)
          | some idx ↦ from_query query idx g
        ]
      ]
    ]

    -- What an answer says of the table.
    or_invalid_sound :
        (t : Text) (g g' : TokenGranter B) (v : VerifiedToken I)
        → or_invalid (verify_token B t g) ≡ (g', ok v)
        → (e : TokenEntry I) × (B.get g.tokens v.token ≡ some e) × (e.identifier ≡ v.identifier)
    unfolding verify_token
    or_invalid_sound t g g' v h = elim (Option-cases (B.get g.tokens t)) [
      | inl gone ↦ absurd (ground arith)
      | inr (e, found) ↦ (e, ground arith, ground arith)
    ]

    query_sound :
        (query : Text) (idx : ℕ) (g g' : TokenGranter B) (v : VerifiedToken I)
        → from_query query idx g ≡ (g', ok v)
        → (e : TokenEntry I) × (B.get g.tokens v.token ≡ some e) × (e.identifier ≡ v.identifier)
    unfolding from_query
    query_sound query idx g g' v h =
        elim (Option-cases (get_range query (idx + 12) (idx + 12 + config.token_length))) [
          | inl cut ↦ absurd (ground arith)
          | inr (token, part) ↦ elim (Option-cases (from_str token)) [
            | inl bad ↦ absurd (ground arith)
            | inr (value, good) ↦ or_invalid_sound value g g' v (ground arith)
          ]
        ]

    -- Whatever the request, a user is let in only with a token that the table holds, and only as the
    -- user whose token it is.
    pub request_sound :
        (parts : Parts) (g g' : TokenGranter B) (v : VerifiedToken I)
        → from_request_parts parts g ≡ (g', ok v)
        → (e : TokenEntry I) × (B.get g.tokens v.token ≡ some e) × (e.identifier ≡ v.identifier)
    unfolding from_request_parts from_query
    request_sound parts g g' v h = elim (Option-cases (parts.headers config.header_name)) [
      | inr (token, there) ↦ elim (Bool-cases (length token == config.token_length)) [
        | inl long ↦ or_invalid_sound token g g' v (ground arith)
        | inr short ↦ absurd (ground arith)
      ]
      | inl no_header ↦ elim (Option-cases parts.query) [
        | inl no_query ↦ absurd (ground arith)
        | inr (query, q) ↦ elim (Option-cases (find query (to_lowercase config.header_name))) [
          | inl unnamed ↦ absurd (ground arith)
          | inr (idx, at) ↦ query_sound query idx g g' v (ground arith)
        ]
      ]
    ]

    -- A request without the header, whose query is ASCII and carries the header's name in lower
    -- case, one byte and a token of the right length, is answered for that token, if the name
    -- has eleven bytes, its first occurrence is that one, and the token can be a header value.
    pub from_request_parts-query :
        (pre token rest : Text) (sep : ℕ) (parts : Parts) (g : TokenGranter B)
        → length (to_lowercase config.header_name) ≡ 11
        → length token ≡ config.token_length
        → parts.headers config.header_name ≡ none
        → parts.query
          ≡ some ((pre ++ to_lowercase config.header_name ++ sep ∷ []) ++ (token ++ rest))
        → IsAscii ((pre ++ to_lowercase config.header_name ++ sep ∷ []) ++ (token ++ rest))
        → find
            ((pre ++ to_lowercase config.header_name ++ sep ∷ []) ++ (token ++ rest))
            (to_lowercase config.header_name)
          ≡ some (length pre)
        → from_str token ≡ some token
        → from_request_parts parts g ≡ or_invalid (verify_token B token g)
    unfolding from_request_parts from_query
    from_request_parts-query pre token rest sep parts g eleven long no_header q plain at good =
        let name = to_lowercase config.header_name in
        let front = pre ++ name ++ sep ∷ [] in
        let start : length front ≡ length pre + 12 =
          omega (arith, length-append (pre ++ name) (sep ∷ []), length-append pre name) in
        let middle : get_range (front ++ (token ++ rest)) (length pre + 12)
              (length pre + 12 + config.token_length)
            ≡ some token =
          rw (← start, ← long) (get_range-middle front token rest plain) in
        rw (no_header, from_request_parts) (rw q (rw at (rw (middle, from_query) (rw good))))
