-- ===== src/Server/Match/Queue/Tried.antt =====
-- The games that `queueMatch` of hpserver/server.go tries, one after another.
use hp_server.Prelude.{
  ℕ, ◌≡◌, ◌≢◌, inl, inr, false, Option, none, some, List, [], ◌∷◌, All, Bool-cases, Option-cases,
  subst,
}
use hp_server.IntMap
use hp_server.IntMap.{IntMap, get}
use hp_server.IntMap.Laws.{put-All, get-All}
use hp_server.Session.{Heap}
use hp_server.Game.{Game, MatchRequest}
use hp_server.Game.Members.{add_member-All, add_member-refused}
use hp_server.Server.Match.{is_compatible_game, try_game, try_games}

-- What is true of a result, if there is one.
abbrev pub Holds {ℓ κ} : {A : Type ℓ} → (A → Type κ) → Option A → Type κ
Holds P none = Unit
Holds P (some a) = P a

pub Holds-elim {ℓ κ} :
    {A : Type ℓ} (P : A → Type κ) {o : Option A} {a : A} → Holds P o → o ≡ some a → P a
Holds-elim P h e = subst (Holds P) e h

-- No session of the games is this one.
abbrev pub IsUnseated : ℕ → IntMap Game → Type 0
IsUnseated p games = All (λ e. All (λ m. p ≢ m) e.1.members) games

-- What holds of the session and of the members of a game holds of the members after it was tried;
-- and they are the same unless the session was added.
try_game-All :
    (P : ℕ → Type 0) (heap : Heap) (now : ℕ) (request : MatchRequest) (game : Game)
    → All P game.members
    → Holds
        (λ r. (P request.session → All P r.0.members) × (r.1 ≡ false → All P r.0.members))
        (try_game heap now request game)
unfolding try_game
try_game-All P heap now request game h = elim (Option-cases (is_compatible_game game request)) [
  | inl panic ↦ rw (panic, try_game) tt
  | inr (compatible, e) ↦ elim (Bool-cases compatible) [
    | inl does ↦
        rw (e, does, try_game)
          (
            λ hp. add_member-All P heap now request.session game hp h,
            λ refused. add_member-refused P heap now request.session game h refused,
          )
    | inr not_so ↦ rw (e, not_so, try_game) (λ hp. h, λ refused. h)
  ]
]

pub try_games-All :
    (P : ℕ → Type 0) (heap : Heap) (now : ℕ) (request : MatchRequest) (ids : List ℕ)
    (games : IntMap Game)
    → All (λ e. All P e.1.members) games
    → Holds
        (λ r.
          (P request.session → All (λ e. All P e.1.members) r.0)
          × (r.1 ≡ none → All (λ e. All P e.1.members) r.0))
        (try_games heap now request ids games)
unfolding try_games
try_games-All P heap now request [] games h = (λ hp. h, λ nowhere. h)
try_games-All P heap now request (id ∷ ids) games h = elim (Option-cases (get id games)) [
  | inl missing ↦ rw (missing, try_games) (try_games-All P heap now request ids games h)
  | inr (game, found) ↦ elim (Option-cases (try_game heap now request game)) [
    | inl panic ↦ rw (found, panic, try_games) tt
    | inr ((game', added), tried) ↦
        let here = get-All (λ g. All P g.members) id game games h found in
        let (seated, refused) =
          Holds-elim
            (λ r. (P request.session → All P r.0.members) × (r.1 ≡ false → All P r.0.members))
            (try_game-All P heap now request game here) tried in
        elim (Bool-cases added) [
          | inl does ↦
              rw (found, tried, does, try_games)
                (
                  λ hp. put-All (λ g. All P g.members) id game' games (seated hp) h,
                  λ nowhere. absurd (cc),
                )
          | inr not_so ↦
              rw (found, tried, not_so, try_games)
                (try_games-All P heap now request ids (IntMap.put id game' games)
                  (put-All (λ g. All P g.members) id game' games (refused not_so) h))
        ]
  ]
]
