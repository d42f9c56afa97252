-- ===== src/Bola/Leaderboard/Siblings.antt =====
-- Two nodes of leaderboard.rs that tell one another of their updates, and what a node does not tell.
use mangle_apis.Base.{ℕ, ◌≡◌, refl, ◌⊎◌, inl, inr, Bool, true, false, List, [], ◌∷◌, ◌++◌, arith}
use mangle_apis.Base.Text.{Text, text_eq}
use mangle_apis.Bola.Leaderboard.{
  LeaderboardEntry, Difficulty, easy, normal, expert, HighscoreUpdate, Leaderboard, difficulty_name,
  local_update_leaderboard, announce, put_score, add_leaderboard_entry, receive_update,
}
use mangle_apis.Bola.Leaderboard.Service.{local_update-result}

-- Two nodes show the same.
pub record SameBoards (s t : Leaderboard) : Type 0 where
  pub same_span : s.leaderboard_span ≡ t.leaderboard_span
  pub same_easy : s.easy_leaderboard ≡ t.easy_leaderboard
  pub same_normal : s.normal_leaderboard ≡ t.normal_leaderboard
  pub same_expert : s.expert_leaderboard ≡ t.expert_leaderboard

SameBoards-local_update :
    (d : Difficulty) (e : LeaderboardEntry) (now later : ℕ) (s t : Leaderboard)
    → SameBoards s t
    → SameBoards (local_update_leaderboard d e now s).0 (local_update_leaderboard d e later t).0
unfolding local_update_leaderboard
SameBoards-local_update easy e now later s t h = ground arith
SameBoards-local_update normal e now later s t h = ground arith
SameBoards-local_update expert e now later s t h = ground arith

abbrev message : Difficulty → LeaderboardEntry → HighscoreUpdate
message d e = record { difficulty = difficulty_name d; username = e.username; score = e.score }

-- The name of a difficulty in a message leads back to it.
receive-message :
    (d : Difficulty) (e : LeaderboardEntry) (now : ℕ) (s : Leaderboard)
    → receive_update (message d e) now s ≡ (local_update_leaderboard d e now s).0
unfolding receive_update text_eq
receive-message easy e now s = refl
receive-message normal e now s = refl
receive-message expert e now s = refl

sent-local_update :
    (d : Difficulty) (e : LeaderboardEntry) (now : ℕ) (s : Leaderboard)
    → (local_update_leaderboard d e now s).0.sent ≡ s.sent
unfolding local_update_leaderboard
sent-local_update easy e now s = ground arith
sent-local_update _ e now s = ground arith

announce-cases :
    (d : Difficulty) (e : LeaderboardEntry) (r : Leaderboard × Bool)
    → ((r.1 ≡ false) × (announce d e r ≡ r.0))
      ⊎ ((r.1 ≡ true) × (announce d e r ≡ record (r.0) { sent = r.0.sent ++ message d e ∷ [] }))
announce-cases d e (s, false) = inl (refl, refl)
announce-cases d e (s, true) = inr (refl, refl)

SameBoards-put_score :
    (d : Difficulty) (email : Text) (e : LeaderboardEntry) (s t : Leaderboard)
    → SameBoards s t
    → SameBoards (put_score d email e s) t
SameBoards-put_score d email e s t h = record {
  same_span = h.same_span;
  same_easy = h.same_easy;
  same_normal = h.same_normal;
  same_expert = h.same_expert;
}

SameBoards-sent :
    (m : List HighscoreUpdate) (s t : Leaderboard)
    → SameBoards s t
    → SameBoards (record s { sent = m }) t
SameBoards-sent m s t h = record {
  same_span = h.same_span;
  same_easy = h.same_easy;
  same_normal = h.same_normal;
  same_expert = h.same_expert;
}

-- Two nodes that show the same, of which one takes a submission: either it has nothing to tell and
-- they still show the same, or it sends one message, and once the other has received that message
-- they show the same again.
pub add-SameBoards :
    (d : Difficulty) (email : Text) (e : LeaderboardEntry) (accepted : Bool) (now later : ℕ)
    (s t : Leaderboard)
    → SameBoards s t
    → (((add_leaderboard_entry d email e accepted now s).0.sent ≡ s.sent)
        × SameBoards (add_leaderboard_entry d email e accepted now s).0 t)
      ⊎ ((m : HighscoreUpdate) × ((add_leaderboard_entry d email e accepted now s).0.sent
            ≡ s.sent ++ m ∷ [])
          × SameBoards
              (add_leaderboard_entry d email e accepted now s).0
              (receive_update m later t))
unfolding add_leaderboard_entry
add-SameBoards d email e false now later s t h = inl (refl, h)
add-SameBoards d email e true now later s t h =
    let s' = put_score d email e s in
    let h' = SameBoards-put_score d email e s t h in
    let r = local_update_leaderboard d e now s' in
    elim (announce-cases d e r) [
      | inl (off, quiet) ↦ elim (local_update-result d e now s') [
        | inl (_, same) ↦ inl (rw (quiet, same), rw (quiet, same) h')
        | inr (on, _, _) ↦ cc
      ]
      | inr (on, loud) ↦ inr (
        message d e,
        rw (loud, sent-local_update d e now s'),
        rw (loud, receive-message d e later t)
            (SameBoards-sent (r.0.sent ++ message d e ∷ []) r.0
              (local_update_leaderboard d e later t).0
              (SameBoards-local_update d e now later s' t h')),
      )
    ]
