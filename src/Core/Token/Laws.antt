-- ===== src/Core/Token/Laws.antt =====
-- The operations on tokens, for an identity that has at most one token.
use mangle_apis.Base.{
  ℕ, ◌+◌, ◌≡◌, ◌≢◌, refl, sym, ap, ◌∙◌, ◌⊎◌, inl, inr, Option, none, some, if◌then◌else◌,
  Bool-cases, Option-cases,
}
use mangle_apis.Base.Text.{Text}
use mangle_apis.Core.Token.BiMap.{BiMapApi, unless}
use mangle_apis.Core.Token.{TokenEntry, VerifiedToken, TokenGranter, create_token, verify_token}

-- The answer of `verify_token` for an entry of the table.
abbrev pub as_verified : {I : Type 0} → Text → Option (TokenEntry I) → Option (VerifiedToken I)
as_verified token none = none
as_verified token (some e) = some (record { token = token; identifier = e.identifier })

module _ {I : Type 0} (B : BiMapApi Text I (TokenEntry I) (λ e. e.identifier)) where
  open B use {
    get, insert, remove, left_eq, right_eq, left_eq_iff, right_eq_iff, get-insert, get-remove,
    get-empty,
  }

  -- No identity has two tokens.
  pub record IsSingle (g : TokenGranter B) : Type 0 where
    pub single :
        (s t : Text) (x y : TokenEntry I)
        → get g.tokens s ≡ some x
        → get g.tokens t ≡ some y
        → x.identifier ≡ y.identifier
        → s ≡ t

  -- Two granters that answer every request alike.
  pub record SameTokens (g h : TokenGranter B) : Type 0 where
    pub duration : g.token_duration ≡ h.token_duration
    pub tokens_at : (s : Text) → get g.tokens s ≡ get h.tokens s

  -- A lookup in what `create_token` leaves: the new token has its entry, the identity's older token
  -- has none, and every other token keeps its own.
  pub get-create_token :
      (id : I) (token : Text) (now : ℕ) (g : TokenGranter B) (j : Text)
      → get (create_token B id token now g).0.tokens j ≡ (
          if left_eq token j
          then some (record { wakes_at = now + g.token_duration; identifier = id })
          else unless (λ w. right_eq w.identifier id) (get g.tokens j))
  unfolding create_token
  get-create_token id token now g j =
      get-insert g.tokens token (record { wakes_at = now + g.token_duration; identifier = id }) j

  -- Putting an entry back is no change when its identity has no other token.
  put_back :
      (g : TokenGranter B) (token j : Text) (e : TokenEntry I)
      → IsSingle g
      → get g.tokens token ≡ some e
      → get (insert (remove g.tokens token) token e) j ≡ get g.tokens j
  put_back g token j e one found =
      rw (get-insert (remove g.tokens token) token e j, get-remove g.tokens token j)
        (elim (Bool-cases (left_eq token j)) [
          | inl same ↦ rw same (rw (← (left_eq_iff token j).0 same) (sym found))
          | inr other ↦ rw other (elim (Option-cases (get g.tokens j)) [
            | inl gone ↦ rw gone
            | inr (w, there) ↦ rw there (elim (Bool-cases (right_eq w.identifier e.identifier)) [
              | inr differ ↦ rw differ
              | inl alike ↦ cc (
                other,
                (left_eq_iff token j).1 (
                    one.single token j e w found there
                      (sym ((right_eq_iff w.identifier e.identifier).0 alike))),
              )
            ])
          ])
        ])

  -- Verifying a token gives its identity, and leaves every token as it was.
  pub verify_token_lem :
      (token : Text) (g : TokenGranter B)
      → IsSingle g
      → SameTokens (verify_token B token g).0 g
        × ((verify_token B token g).1 ≡ as_verified token (get g.tokens token))
  unfolding verify_token
  verify_token_lem token g one = elim (Option-cases (get g.tokens token)) [
    | inl gone ↦ rw (gone, verify_token) (record { duration = refl; tokens_at = λ s. refl }, refl)
    | inr (e, found) ↦
        rw (found, verify_token)
          (record { duration = refl; tokens_at = λ s. put_back g token s e one found }, refl)
  ]

  -- A table with fewer tokens.
  pub IsSingle-sub :
      (g h : TokenGranter B)
      → IsSingle g
      → ((s : Text) (x : TokenEntry I) → get h.tokens s ≡ some x → get g.tokens s ≡ some x)
      → IsSingle h
  IsSingle-sub g h one sub = record {
    single = λ s t x y p q e. one.single s t x y (sub s x p) (sub t y q) e;
  }

  module _ (g : TokenGranter B) (one : IsSingle g) where
    -- What is in a table after an insertion.
    inserted :
        (id : I) (token : Text) (now : ℕ) (j : Text) (x : TokenEntry I)
        → get (create_token B id token now g).0.tokens j ≡ some x
        → ((token ≡ j) × (x.identifier ≡ id)) ⊎ ((get g.tokens j ≡ some x) × (x.identifier ≢ id))
    inserted id token now j x found =
        let e = sym (get-create_token id token now g j) ∙ found in
        elim (Bool-cases (left_eq token j)) [
          | inl same ↦
              let both : some (record { wakes_at = now + g.token_duration; identifier = id })
                  ≡ some x =
                rw same at e in
              let new_entry : record { wakes_at = now + g.token_duration; identifier = id } ≡ x =
                cc in
              inl (
                (left_eq_iff token j).0 same,
                sym (ap (λ (w : TokenEntry I). w.identifier) new_entry),
              )
          | inr other ↦ elim (Option-cases (get g.tokens j)) [
            | inl gone ↦ absurd (nothing (get g.tokens j) gone (rw other at e))
            | inr (w, there) ↦ inr (kept (get g.tokens j) (rw other at e))
          ]
        ]
      where
        nothing :
            (o : Option (TokenEntry I))
            → o ≡ none
            → unless (λ w. right_eq w.identifier id) o ≡ some x
            → ⊥
        nothing none q r = cc
        nothing (some w) q r = cc

        kept :
            (o : Option (TokenEntry I))
            → unless (λ w. right_eq w.identifier id) o ≡ some x
            → (o ≡ some x) × (x.identifier ≢ id)
        kept none r = cc
        kept (some w) r = elim (Bool-cases (right_eq w.identifier id)) [
          | inl alike ↦ cc (r, alike)
          | inr differ ↦
              let both : some w ≡ some x = rw differ at r in
              let it : w ≡ x = cc in
              (
                ap some it,
                λ e. cc (
                  differ,
                  (right_eq_iff w.identifier id).1 (ap (λ (v : TokenEntry I). v.identifier) it ∙ e),
                ),
              )
        ]

    pub create_token-IsSingle :
        (id : I) (token : Text) (now : ℕ) → IsSingle (create_token B id token now g).0
    create_token-IsSingle id token now = record {
      single = λ s t x y p q e. elim (inserted id token now s x p) [
        | inl (here, mine) ↦ elim (inserted id token now t y q) [
          | inl (there, yours) ↦ sym here ∙ there
          | inr (old, not_mine) ↦ absurd (not_mine (sym e ∙ mine))
        ]
        | inr (old, not_mine) ↦ elim (inserted id token now t y q) [
          | inl (there, yours) ↦ absurd (not_mine (e ∙ yours))
          | inr (old', not_yours) ↦ one.single s t x y old old' e
        ]
      ];
    }

    removed :
        (token j : Text) (x : TokenEntry I)
        → get (remove g.tokens token) j ≡ some x
        → get g.tokens j ≡ some x
    removed token j x found =
        let e = sym (get-remove g.tokens token j) ∙ found in
        elim (Bool-cases (left_eq token j)) [
          | inl same ↦ let c = (rw same at e) in cc (c)
          | inr other ↦ rw other at e
        ]

    pub remove-IsSingle : (token : Text) → IsSingle (record g { tokens = remove g.tokens token })
    remove-IsSingle token =
        IsSingle-sub g (record g { tokens = remove g.tokens token }) one (removed token)
