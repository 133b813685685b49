-- ===== src/LiveChat/Candidates.antt =====
-- Which user's messages are answered.
use ubot_ai_agent.Base.{
  ℕ, ◌≤◌, ◌≡◌, ◌⊎◌, refl, sym, ap, subst, ◌∙◌, inl, inr, ltb, leb, ◌&&◌, true, Option, none, some,
  List, [], ◌∷◌, ◌++◌, Text, codes, filter, same, same→eq, same_refl, includes, All, Bool-cases,
  arith,
}
use ubot_ai_agent.LiveChat.{
  LiveChat, BufferedMessage, Candidate, last_timestamp_of, offer, better, candidate_from,
  get_messages_between, get_window_candidate,
}

none_ne_some : {A : Type 0} (x : A) → ◌≡◌ {A = Option A} none (some x) → ⊥
none_ne_some x e = cc

-- The first offer is not later than the second.
abbrev pub IsCovered : Option Candidate → Option Candidate → Type 0
IsCovered none out = Unit
IsCovered (some o) none = ⊥
IsCovered (some o) (some c) = o.last_timestamp ≤ c.last_timestamp

better-IsCovered : (best new : Option Candidate) → IsCovered best (better best new)
better-IsCovered none new = tt
better-IsCovered (some b) none = omega arith
better-IsCovered (some b) (some c) = elim (Bool-cases (ltb b.last_timestamp c.last_timestamp)) [
  | inl e ↦ rw e (ground (arith, e))
  | inr e ↦ rw e (omega arith)
]

new-IsCovered : (best new : Option Candidate) → IsCovered new (better best new)
new-IsCovered best none = tt
new-IsCovered none (some c) = omega arith
new-IsCovered (some b) (some c) = elim (Bool-cases (ltb b.last_timestamp c.last_timestamp)) [
  | inl e ↦ rw e (omega arith)
  | inr e ↦ rw e (ground (arith, e))
]

IsCovered-trans : (a b c : Option Candidate) → IsCovered a b → IsCovered b c → IsCovered a c
IsCovered-trans none b c h k = tt
IsCovered-trans (some x) none c h k = absurd h
IsCovered-trans (some x) (some y) none h k = absurd k
IsCovered-trans (some x) (some y) (some z) h k = omega (arith, h, k)

IsCovered-refl : (a : Option Candidate) → IsCovered a a
IsCovered-refl none = tt
IsCovered-refl (some x) = omega arith

better_cases : (best new : Option Candidate) → (better best new ≡ best) ⊎ (better best new ≡ new)
better_cases best none = inl refl
better_cases none (some c) = inr refl
better_cases (some b) (some c) = elim (Bool-cases (ltb b.last_timestamp c.last_timestamp)) [
  | inl e ↦ rw e (inr refl)
  | inr e ↦ rw e (inl refl)
]

-- The last of the messages has the time.
abbrev pub HasLast : List BufferedMessage → ℕ → Type 0
HasLast ms t =
    (before : List BufferedMessage) × (m : BufferedMessage) × (ms ≡ before ++ m ∷ [])
    × (m.timestamp ≡ t)

last_timestamp_of-HasLast :
    (m : BufferedMessage) (ms : List BufferedMessage) → HasLast (m ∷ ms) (last_timestamp_of m ms)
last_timestamp_of-HasLast m [] = ([], m, refl, refl)
last_timestamp_of-HasLast m (n ∷ ms) =
    let (before, last, split, at) = last_timestamp_of-HasLast n ms in
    (m ∷ before, last, ap (◌∷◌ m) split, at)

last_timestamp_of-append :
    (x m : BufferedMessage) (before : List BufferedMessage)
    → last_timestamp_of x (before ++ m ∷ []) ≡ m.timestamp
last_timestamp_of-append x m [] = refl
last_timestamp_of-append x m (y ∷ before) = last_timestamp_of-append y m before

-- An offer is what its user has said, up to the time of the last message.
offer-HasLast :
    (user : Text) (ms : List BufferedMessage) (c : Candidate)
    → offer user ms ≡ some c
    → (c.user_id ≡ user) × (c.messages ≡ ms) × HasLast ms c.last_timestamp
unfolding offer
offer-HasLast user [] c e = cc
offer-HasLast user (m ∷ ms) c e =
    let made : Candidate = record {
      user_id = user;
      messages = m ∷ ms;
      last_timestamp = last_timestamp_of m ms;
    } in
    let same_offer : made ≡ c = cc in
    subst (λ x. (x.user_id ≡ user) × (x.messages ≡ m ∷ ms) × HasLast (m ∷ ms) x.last_timestamp)
      same_offer (refl, refl, last_timestamp_of-HasLast m ms)

offer-append :
    (user : Text) (before : List BufferedMessage) (m : BufferedMessage)
    → (o : Candidate) × (offer user (before ++ m ∷ []) ≡ some o) × (o.last_timestamp ≡ m.timestamp)
unfolding offer
offer-append user [] m = (_, refl, refl)
offer-append user (x ∷ before) m = (_, refl, last_timestamp_of-append x m before)

All-includes :
    (P : Text → Type 0) (users : List Text) (u : Text) → All P users → includes users u ≡ true → P u
All-includes P [] u h e = cc
All-includes P (v ∷ users) u h e = elim (Bool-cases (same v u)) [
  | inl hit ↦ subst P (same→eq v u hit) h.0
  | inr miss ↦ All-includes P users u h.1 (ground (arith, miss, e))
]

IsCovered-some :
    (o : Candidate) (out : Option Candidate)
    → IsCovered (some o) out
    → (c : Candidate) × (out ≡ some c) × (o.last_timestamp ≤ c.last_timestamp)
IsCovered-some o none h = absurd h
IsCovered-some o (some c) h = (c, refl, h)

module _ (group : Text) (start end : ℕ) (s : LiveChat) where
  -- A user's messages in the time.
  abbrev pub messages_of : Text → List BufferedMessage
  messages_of user =
      filter (λ m. leb start m.timestamp && leb m.timestamp end)
        (s.buffers (group ++ (codes ":" ++ user)))

  -- What a user offers in the time.
  abbrev offer_of : Text → Option Candidate
  offer_of user = offer user (get_messages_between group user start end s)

  -- Each of the users is covered, and the outcome is what one of them offers, or what there was before.
  record IsOffer (users : List Text) (best out : Option Candidate) : Type 0 where
    before : IsCovered best out
    covers : All (λ u. IsCovered (offer_of u) out) users
    origin : (out ≡ best) ⊎ ((u : Text) × (includes users u ≡ true) × (out ≡ offer_of u))

  candidate_from-IsOffer :
      (users : List Text) (best : Option Candidate)
      → IsOffer users best (candidate_from group start end s best users)
  unfolding candidate_from
  candidate_from-IsOffer [] best = record {
    before = IsCovered-refl best;
    covers = tt;
    origin = inl refl;
  }
  candidate_from-IsOffer (user ∷ users) best =
      let next = better best (offer_of user) in
      let rest = candidate_from-IsOffer users next in
      let out = candidate_from group start end s next users in
      record {
        before = IsCovered-trans best next out (better-IsCovered best (offer_of user)) rest.before;
        covers = (
          IsCovered-trans (offer_of user) next out (new-IsCovered best (offer_of user)) rest.before,
          rest.covers,
        );
        origin = elim rest.origin [
          | inl kept ↦ elim (better_cases best (offer_of user)) [
            | inl old ↦ inl (kept ∙ old)
            | inr new ↦ inr (user, rw (same_refl user) refl, kept ∙ new)
          ]
          | inr (u, tracked, made) ↦ inr (u, ground (arith, tracked), made)
        ];
      }

  -- A candidate is a tracked user with the messages in the time, and the time of the last of them; a
  -- tracked user who said something in the time has a candidate to match, one at least as late.
  pub record IsBest (users : List Text) (out : Option Candidate) : Type 0 where
    pub chosen :
        (c : Candidate)
        → out ≡ some c
        → (includes users c.user_id ≡ true)
          × (c.messages ≡ messages_of c.user_id)
          × HasLast c.messages c.last_timestamp
    pub latest :
        (u : Text) (before : List BufferedMessage) (m : BufferedMessage)
        → includes users u ≡ true
        → messages_of u ≡ before ++ m ∷ []
        → (c : Candidate) × (out ≡ some c) × (m.timestamp ≤ c.last_timestamp)

  offered :
      (users : List Text) (out : Option Candidate) (c : Candidate)
      → IsOffer users none out
      → out ≡ some c
      → (includes users c.user_id ≡ true)
        × (c.messages ≡ messages_of c.user_id)
        × HasLast c.messages c.last_timestamp
  unfolding get_messages_between
  offered users out c best e = elim best.origin [
    | inl nobody ↦ absurd (none_ne_some c (sym nobody ∙ e))
    | inr (u, tracked, made) ↦
        let (named, said, last) = offer-HasLast u (messages_of u) c (sym made ∙ e) in
        (
          ap (includes users) named ∙ tracked,
          said ∙ ap messages_of (sym named),
          subst (λ ms. HasLast ms c.last_timestamp) (sym said) last,
        )
  ]

  matched :
      (users : List Text) (out : Option Candidate) (u : Text) (before : List BufferedMessage)
      (m : BufferedMessage)
      → IsOffer users none out
      → includes users u ≡ true
      → messages_of u ≡ before ++ m ∷ []
      → (c : Candidate) × (out ≡ some c) × (m.timestamp ≤ c.last_timestamp)
  unfolding get_messages_between
  matched users out u before m best tracked split =
      let (o, made, at) = offer-append u before m in
      let covered : IsCovered (some o) out =
        subst (λ x. IsCovered x out) (ap (offer u) split ∙ made)
          (All-includes (λ v. IsCovered (offer_of v) out) users u best.covers tracked) in
      let (c, found, later) = IsCovered-some o out covered in
      (c, found, subst (λ t. t ≤ c.last_timestamp) at later)

-- The candidate of the tracked users, if there is one, is one of them, with the messages that the user's
-- buffer holds from the start to the end, and the time of the last of these. There is one as soon as a
-- tracked user has such a message, and no tracked user's last such message is later.
pub get_window_candidate-IsBest :
    (group : Text) (users : List Text) (start end : ℕ) (s : LiveChat)
    → IsBest group start end s users (get_window_candidate group users start end s)
unfolding get_window_candidate
get_window_candidate-IsBest group users start end s =
    let out = candidate_from group start end s none users in
    let best = candidate_from-IsOffer group start end s users none in
    record {
      chosen = λ c e. offered group start end s users out c best e;
      latest = λ u before m tracked split.
          matched group start end s users out u before m best tracked split;
    }
