-- ===== src/Conversation/History/Window.antt =====
-- What is kept of a long history.
use ubot_ai_agent.Base.{
  ℕ, zero, suc, ◌+◌, ◌-◌, ◌≤◌, ◌<◌, max, ◌≡◌, refl, ◌⊎◌, inl, inr, ltb, ltb→lt, List, [], ◌∷◌, Text,
  length, drop, ap, sym, ◌∙◌, subst, arith, Bool-cases,
}
use ubot_ai_agent.Conversation.Tables.{ContextTurn}
use ubot_ai_agent.Conversation.History.{chars, ending, cut_turn, shed, trim_turns}

module _ {ℓ} {A : Type ℓ} where
  length-drop : (n : ℕ) (xs : List A) → length (drop n xs) ≡ length xs - n
  length-drop zero xs = omega arith
  length-drop (suc n) [] = omega arith
  length-drop (suc n) (x ∷ xs) = omega (arith, length-drop n xs)

  drop_nil : (n : ℕ) → drop {A = A} n [] ≡ []
  drop_nil zero = refl
  drop_nil (suc n) = refl

length-ending : (n : ℕ) (s : Text) → n ≤ length s → length (ending n s) ≡ n
length-ending n s h = omega (arith, length-drop (length s - n) s)

-- All of `turns`, or the last `limit` units of the only one where that is too long.
abbrev pub IsWhole : ℕ → List ContextTurn → List ContextTurn → Type 0
IsWhole limit out turns =
    (out ≡ turns)
    ⊎ ((t : ContextTurn) × (turns ≡ t ∷ [])
        × (limit < length t.content)
        × (out ≡ record t { content = drop (length t.content - limit) t.content } ∷ []))

chars_cut :
    (limit : ℕ) (t : ContextTurn) → limit < length t.content → chars (cut_turn limit t ∷ []) ≤ limit
unfolding cut_turn
chars_cut limit t h = omega (arith, length-ending limit t.content (omega arith))

-- What is shed, and what is left.
record IsShed (limit : ℕ) (turns out : List ContextTurn) : Type 0 where
  some_left : 0 < length out
  small : chars out ≤ limit
  end : (k : ℕ) × IsWhole limit out (drop k turns)
  longest : (j : ℕ) → chars (drop j turns) ≤ limit → length (drop j turns) ≤ length out
  short : length out ≤ length turns

longest_behind :
    (limit : ℕ) (t : ContextTurn) (turns out : List ContextTurn)
    → limit < chars (t ∷ turns)
    → ((j : ℕ) → chars (drop j turns) ≤ limit → length (drop j turns) ≤ length out)
    → (j : ℕ) → chars (drop j (t ∷ turns)) ≤ limit
    → length (drop j (t ∷ turns)) ≤ length out
longest_behind limit t turns out long h zero k = absurd (omega (arith, long, k))
longest_behind limit t turns out long h (suc j) k = h j k

shed-IsShed :
    (limit : ℕ) (t : ContextTurn) (ts : List ContextTurn)
    → IsShed limit (t ∷ ts) (shed limit (t ∷ ts))
unfolding shed cut_turn
shed-IsShed limit t [] = elim (Bool-cases (ltb limit (length t.content))) [
  | inl long ↦ rw long (record {
    some_left = omega arith;
    small = chars_cut limit t (ground arith);
    end = (0, inr (t, refl, ground arith, refl));
    longest = λ j h. omega (arith, length-drop j (t ∷ []));
    short = omega arith;
  })
  | inr fits ↦ rw fits (record {
    some_left = omega arith;
    small = ground arith;
    end = (0, inl refl);
    longest = λ j h. omega (arith, length-drop j (t ∷ []));
    short = omega arith;
  })
]
shed-IsShed limit t (next ∷ ts) = elim (Bool-cases (ltb limit (chars (t ∷ next ∷ ts)))) [
  | inl long ↦
      let rest = shed-IsShed limit next ts in
      rw long (record {
        some_left = rest.some_left;
        small = rest.small;
        end = (suc rest.end.0, rest.end.1);
        longest =
            longest_behind limit t (next ∷ ts) (shed limit (next ∷ ts)) (ltb→lt _ _ long)
              rest.longest;
        short = omega (arith, rest.short);
      })
  | inr fits ↦ rw fits (record {
    some_left = omega arith;
    small = ground arith;
    end = (0, inl refl);
    longest = λ j h. omega (arith, length-drop j (t ∷ next ∷ ts));
    short = omega arith;
  })
]

drop-drop : (i j : ℕ) (xs : List ContextTurn) → drop i (drop j xs) ≡ drop (j + i) xs
drop-drop i zero xs = ap (λ k. drop k xs) (omega arith)
drop-drop i (suc j) [] = drop_nil i ∙ sym (drop_nil (suc j + i))
drop-drop i (suc j) (x ∷ xs) =
    drop-drop i j xs
    ∙ ap (λ k. drop k (x ∷ xs)) (let e : suc (j + i) ≡ suc j + i = omega arith in e)

-- What `trimTurns` leaves of the turns.
pub record IsWindow (turns : List ContextTurn) (count limit : ℕ) (out : List ContextTurn)
    : Type 0 where
  pub some_left : 0 < length out
  pub few : length out ≤ count
  pub small : chars out ≤ limit
  pub end : (k : ℕ) × IsWhole limit out (drop k turns)
  pub longest :
      (j : ℕ)
      → length (drop j turns) ≤ count
      → chars (drop j turns) ≤ limit
      → length (drop j turns) ≤ length out

not_nil :
    (limit : ℕ) (turns : List ContextTurn)
    → 0 < length turns
    → IsShed limit turns (shed limit turns)
not_nil limit [] h = elim h [ ]
not_nil limit (t ∷ ts) h = shed-IsShed limit t ts

-- A history with a turn in it is cut to its last turns: at least one and at most as many as allowed,
-- with no more text in all than allowed, and as many turns as satisfy both; only where the very last
-- turn is longer than that by itself, the end of its text is kept.
pub trim_turns-IsWindow :
    (turns : List ContextTurn) (max_turns max_chars : ℕ)
    → 0 < length turns
    → IsWindow turns (max 1 max_turns) (max 1 max_chars) (trim_turns turns max_turns max_chars)
unfolding trim_turns
trim_turns-IsWindow turns max_turns max_chars h =
    let skipped = length turns - max 1 max_turns in
    let size = length-drop skipped turns in
    let left = not_nil (max 1 max_chars) (drop skipped turns) (omega (arith, size)) in
    record {
      some_left = left.some_left;
      few = omega (arith, left.short, size);
      small = left.small;
      end = (
        skipped + left.end.0,
        subst (IsWhole _ _) (drop-drop left.end.0 skipped turns) left.end.1,
      );
      longest = λ j few small.
          let behind =
            drop-drop (j - skipped) skipped turns
            ∙ ap (λ k. drop k turns) (omega (arith, few, length-drop j turns)) in
          subst (λ l. length l ≤ length (shed (max 1 max_chars) (drop skipped turns))) behind
            (left.longest (j - skipped)
              (subst (λ l. chars l ≤ max 1 max_chars) (sym behind) small));
    }
