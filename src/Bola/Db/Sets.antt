-- ===== src/Bola/Db/Sets.antt =====
-- A profile of db.rs that comes back from the table, which keeps no order in a number set.
use mathlib.Core.List.{Permᴰ}
use mathlib.Core.List.Permᴰ
use mathlib.Core.List.Permᴰ.{nil, cons, swap, trans}
use mangle_apis.Base.{
  ℕ, ◌≤◌, ◌≡◌, refl, sym, subst, ap, ◌∙◌, true, Option, none, some, List, [], ◌∷◌, map, All,
  Option-cases, inl, inr,
}
use mangle_apis.Base.Text.{Text, bytes}
use mangle_apis.Base.Map.{MapApi}
use mangle_apis.Base.Outcome.{ok, ◌>>=◌, >>=-eq-ok}
use mangle_apis.Base.Decimal.{to_string, parse_u16}
use mangle_apis.Bola.WsApi.{UserProfile}
use mangle_apis.Bola.Db.{
  AttributeValue, s, n, ns, answered, put_item, as_s, as_ns, deser, parse_wins, wins_or_none,
  require_username, map_to_user_profile, get_user_profile_by_email, new_item, create_user_profile,
}
use mangle_apis.Bola.Db.Laws.{
  parse_wins-map, num_zero, Fresh, fresh, new_item-Fresh, wins_attribute,
}

parse_wins-cons :
    (text : Text) (texts : List Text) (w : ℕ) (rest : List ℕ)
    → parse_u16 text ≡ some w
    → parse_wins texts ≡ ok rest
    → parse_wins (text ∷ texts) ≡ ok (w ∷ rest)
unfolding parse_wins
parse_wins-cons text texts w rest e f = rw (e, parse_wins) (rw (f, parse_wins) refl)

parse_wins-inv :
    (text : Text) (texts : List Text) (wins : List ℕ)
    → parse_wins (text ∷ texts) ≡ ok wins
    → (w : ℕ) × (rest : List ℕ) × (parse_u16 text ≡ some w)
      × (parse_wins texts ≡ ok rest)
      × (wins ≡ w ∷ rest)
unfolding parse_wins
parse_wins-inv text texts wins = elim (Option-cases (parse_u16 text)) [
  | inl unread ↦ rw (unread, parse_wins) (λ e. absurd (cc))
  | inr (w, number) ↦
      rw (number, parse_wins)
        (λ e.
          let (rest, f, g) = >>=-eq-ok (parse_wins texts) (λ rest. ok (w ∷ rest)) e in
          (w, rest, refl, f, cc))
]

parse_wins-Permᴰ :
    (xs ys : List Text) (wins : List ℕ)
    → Permᴰ xs ys
    → parse_wins xs ≡ ok wins
    → (read : List ℕ) × (parse_wins ys ≡ ok read) × Permᴰ wins read
parse_wins-Permᴰ _ _ wins nil e = (wins, e, Permᴰ.refl wins)
parse_wins-Permᴰ _ _ wins (cons {a} {b} {l₁} {l₂} same d) e =
    let (w, rest, f, g, shape) = parse_wins-inv a l₁ wins e in
    let (read, r, p) = parse_wins-Permᴰ l₁ l₂ rest d g in
    (w ∷ read, parse_wins-cons b l₂ w read (ap parse_u16 (sym same) ∙ f) r, rw shape (cons refl p))
parse_wins-Permᴰ _ _ wins (swap {a} {b} {a'} {b'} {l} first second) e =
    let (w, rest, f, g, shape) = parse_wins-inv a (b ∷ l) wins e in
    let (v, last, f', g', shape') = parse_wins-inv b l rest g in
    (
      v ∷ w ∷ last,
      parse_wins-cons a' (b' ∷ l) v (w ∷ last) (ap parse_u16 (sym second) ∙ f')
          (parse_wins-cons b' l w last (ap parse_u16 (sym first) ∙ f) g'),
      subst (λ ws. Permᴰ ws (v ∷ w ∷ last)) (sym (shape ∙ ap (w ∷◌) shape')) (swap refl refl),
    )
parse_wins-Permᴰ _ _ wins (trans {l₁} {l₂} {l₃} d d') e =
    let (read, r, p) = parse_wins-Permᴰ l₁ l₂ wins d e in
    let (read', r', p') = parse_wins-Permᴰ l₂ l₃ read d' r in (read', r', trans p p')

-- What the table keeps of an attribute: all of it, except for the order of a set.
pub data Kept : Option AttributeValue → Option AttributeValue → Type 0 where
  absent : Kept none none
  whole : (value : AttributeValue) → Kept (some value) (some value)
  unordered : (xs ys : List Text) → Permᴰ xs ys → Kept (some (ns xs)) (some (ns ys))

Kept-s :
    (text : Text) (put stored : Option AttributeValue)
    → Kept put stored
    → put ≡ some (s text)
    → stored ≡ some (s text)
Kept-s text _ _ absent e = e
Kept-s text _ _ (whole value) e = e
Kept-s text _ _ (unordered xs ys p) e = absurd (cc)

Kept-n :
    (text : Text) (put stored : Option AttributeValue)
    → Kept put stored
    → put ≡ some (n text)
    → stored ≡ some (n text)
Kept-n text _ _ absent e = e
Kept-n text _ _ (whole value) e = e
Kept-n text _ _ (unordered xs ys p) e = absurd (cc)

-- Reading the tournaments from an attribute.
abbrev Reads : Option AttributeValue → List ℕ → Type 0
Reads attribute wins = (deser (bytes "tournament_wins") as_ns attribute >>= wins_or_none) ≡ ok wins

Reads-own : (wins : List ℕ) → All (λ w. w ≤ 65535) wins → Reads (wins_attribute wins) wins
unfolding deser as_ns wins_or_none
Reads-own [] small = refl
Reads-own (w ∷ wins) small = parse_wins-map (w ∷ wins) small

Kept-wins :
    (wins : List ℕ) (put stored : Option AttributeValue)
    → All (λ w. w ≤ 65535) wins
    → Kept put stored
    → put ≡ wins_attribute wins
    → (read : List ℕ) × Reads stored read × Permᴰ wins read
Kept-wins wins _ _ small absent e = (wins, rw e (Reads-own wins small), Permᴰ.refl wins)
Kept-wins wins _ _ small (whole value) e = (wins, rw e (Reads-own wins small), Permᴰ.refl wins)
Kept-wins [] _ _ small (unordered xs ys p) e = absurd (cc)
Kept-wins (w ∷ wins) _ _ small (unordered xs ys p) e =
    let same : xs ≡ map to_string (w ∷ wins) = cc in
    let (read, r, q) =
      parse_wins-Permᴰ xs ys (w ∷ wins) p (ap parse_wins same ∙ parse_wins-map (w ∷ wins) small) in
    (read, unfold deser as_ns wins_or_none in r, q)

module _ (M : MapApi Text AttributeValue) where
  abbrev pub new_profile : Text → List ℕ → UserProfile
  new_profile username wins = record {
    username = username;
    easy_highscore = 0;
    normal_highscore = 0;
    expert_highscore = 0;
    tournament_wins = wins;
  }

  -- An item of the table that was put as `item`.
  abbrev pub KeptItem : M.Map → M.Map → Type 0
  KeptItem item stored = (field : Text) → Kept (M.get item field) (M.get stored field)

  read_kept :
      (username : Text) (wins : List ℕ) (item stored : M.Map)
      → All (λ w. w ≤ 65535) wins
      → Fresh M username wins item
      → KeptItem item stored
      → (read : List ℕ) × (map_to_user_profile M stored ≡ ok (new_profile username read))
        × Permᴰ wins read
  unfolding map_to_user_profile
  read_kept username wins item stored small (fresh a b c d e) kept =
      let (read, reads, perm) = Kept-wins wins _ _ small (kept (bytes "tournament_wins")) e in
      (
        read,
        rw
            (
              num_zero M _ stored (Kept-n _ _ _ (kept (bytes "easy_highscore")) a),
              num_zero M _ stored (Kept-n _ _ _ (kept (bytes "normal_highscore")) b),
              num_zero M _ stored (Kept-n _ _ _ (kept (bytes "expert_highscore")) c),
              reads,
              Kept-s _ _ _ (kept (bytes "username")) d,
            )
            (unfold deser as_s require_username in refl),
        perm,
      )

  -- Creating a profile is one request, to put an item. Whenever the table answers with that item, all of
  -- its attributes kept but for the order of the number set, the profile that is read has the name it was
  -- created with, no high scores, and the tournaments it was created with, in some order, given that their
  -- weeks fit in 16 bits.
  pub get-create_user_profile :
      (email username : Text) (wins : List ℕ) (stored : M.Map)
      → All (λ w. w ≤ 65535) wins
      → KeptItem (new_item M email username wins) stored
      → (create_user_profile M true email username wins
          ≡ (put_item (new_item M email username wins) ∷ [], ok tt))
        × (read : List ℕ) × (get_user_profile_by_email M (answered (some stored))
            ≡ ok (some (new_profile username read)))
        × Permᴰ wins read
  unfolding create_user_profile get_user_profile_by_email
  get-create_user_profile email username wins stored small kept =
      let (read, e, perm) =
        read_kept username wins (new_item M email username wins) stored small
          (new_item-Fresh M email username wins) kept in
      (refl, read, rw e refl, perm)
