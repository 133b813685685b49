-- ===== src/Store/Messages/DedupKey.antt =====
-- `${selfId}:${groupId}:${msgId}` tells messages apart as long as the ids hold no colon.
use ubot_ai_agent.Base.{◌≡◌, ◌≢◌, refl, [], ◌∷◌, ◌++◌, Text, All, arith}
use ubot_ai_agent.Store.Messages.{dedup_key_of}

abbrev pub NoColon : Text → Type 0
NoColon = All λ c. c ≢ b':'

split_colon :
    (a a' x y : Text) → NoColon a → NoColon a' → a ++ b':' ∷ x ≡ a' ++ b':' ∷ y → (a ≡ a') × (x ≡ y)
split_colon [] [] x y h h' e = (refl, cc)
split_colon [] (c ∷ a') x y h h' e = ground arith
split_colon (c ∷ a) [] x y h h' e = ground arith
split_colon (c ∷ a) (d ∷ a') x y h h' e = ground (arith, split_colon a a' x y h.1 h'.1)

-- Two messages whose bot and group ids hold no colon have one key only if all three ids agree.
pub dedup_key_of-injective :
    (self group msg self' group' msg' : Text)
    → NoColon self
    → NoColon self'
    → NoColon group
    → NoColon group'
    → dedup_key_of self group msg ≡ dedup_key_of self' group' msg'
    → (self ≡ self') × (group ≡ group') × (msg ≡ msg')
unfolding dedup_key_of
dedup_key_of-injective self group msg self' group' msg' s s' g g' e =
    let (p, rest) = split_colon self self' _ _ s s' e in
    let (q, r) = split_colon group group' msg msg' g g' rest in (p, q, r)
