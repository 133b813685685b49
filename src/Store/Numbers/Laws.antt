-- ===== src/Store/Numbers/Laws.antt =====
-- Delivery ids are read back as they were written.
use ubot_ai_agent.Base.{
  is_space, trim_start, trim_end, sym, ℕ, zero, suc, ◌+◌, ◌*◌, ◌/◌, ◌%◌, ◌-◌, ◌<◌, leb, ltb,
  if◌then◌else◌, Bool, true, false, ◌&&◌, none, some, [], ◌∷◌, ◌++◌, Text, codes, trim, starts_with,
  is_digit, is_empty, all, ◌≡◌, refl, ap, ◌∙◌, arith, Bool-cases, inl, inr,
}
use mathlib.Core.List.{reverse, reverse-append, reverse-reverse}
use ubot_ai_agent.Store.Numbers.{
  digits_from, decimal, value_from, delivery_id_of, outbox_number, max_safe_integer,
  parse_outbox_delivery_id,
}

value_from-append :
    (acc : ℕ) (s : Text) (c : ℕ) → value_from acc (s ++ c ∷ []) ≡ 10 * value_from acc s + (c - 48)
unfolding value_from
value_from-append acc [] c = refl
value_from-append acc (d ∷ s) c = value_from-append (10 * acc + (d - 48)) s c

value_from-digits : (fuel n : ℕ) → n < fuel → value_from 0 (digits_from fuel n) ≡ n
unfolding value_from digits_from
value_from-digits zero n h = elim h [ ]
value_from-digits (suc fuel) n h = elim (Bool-cases (ltb n 10)) [
  | inl small ↦ rw (small, digits_from) (ground arith)
  | inr big ↦
      rw (big, digits_from)
        (value_from-append 0 (digits_from fuel (n / 10)) (48 + n % 10)
          ∙ rw (value_from-digits fuel (n / 10) (ground arith)) (omega arith))
]

all-append : (p : ℕ → Bool) (xs ys : Text) → all p (xs ++ ys) ≡ (all p xs && all p ys)
all-append p [] ys = refl
all-append p (x ∷ xs) ys = ground (arith, all-append p xs ys)

-- The digits end in a digit, and hold nothing else.
digits_last :
    (fuel n : ℕ)
    → n < fuel
    → (s : Text) × (c : ℕ) × (digits_from fuel n ≡ s ++ c ∷ [])
      × (is_digit c ≡ true)
      × (all is_digit s ≡ true)
unfolding digits_from
digits_last zero n h = elim h [ ]
digits_last (suc fuel) n h = elim (Bool-cases (ltb n 10)) [
  | inl small ↦ ([], 48 + n, rw (small, digits_from), ground arith, refl)
  | inr big ↦
      let (s, c, e, d, ds) = digits_last fuel (n / 10) (ground arith) in
      (
        s ++ c ∷ [],
        48 + n % 10,
        rw (big, digits_from) (rw e),
        ground arith,
        ground (arith, all-append is_digit s (c ∷ [])),
      )
]

digits_only : (n : ℕ) → (all is_digit (decimal n) ≡ true) × (is_empty (decimal n) ≡ false)
unfolding decimal
digits_only n =
    let (s, c, e, d, ds) = digits_last (suc n) n (omega arith) in
    (rw e (ground (arith, all-append is_digit s (c ∷ []))), rw e (is_empty-append s c))
  where
    is_empty-append : (s : Text) (c : ℕ) → is_empty (s ++ c ∷ []) ≡ false
    is_empty-append [] c = refl
    is_empty-append (x ∷ s) c = refl

-- What `enqueueOutbox` stores as a delivery id, /^outbox:(\d+)$/ reads back, for every row id.
pub outbox_number-delivery_id_of : (id : ℕ) → outbox_number (delivery_id_of id) ≡ some id
unfolding outbox_number delivery_id_of starts_with
outbox_number-delivery_id_of id =
    let (ds, full) = digits_only id in
    rw (full, ds) (unfold decimal in rw (value_from-digits (suc id) id (omega arith)))

trim_end-last : (s : Text) (c : ℕ) → is_space c ≡ false → trim_end (s ++ c ∷ []) ≡ s ++ c ∷ []
unfolding trim_end
trim_end-last s c h =
    rw (reverse-append s (c ∷ []))
      (rw h (ap reverse (sym (reverse-append s (c ∷ []))) ∙ reverse-reverse (s ++ c ∷ [])))

trim-delivery_id_of : (id : ℕ) → trim (delivery_id_of id) ≡ delivery_id_of id
unfolding trim delivery_id_of trim_start
trim-delivery_id_of id =
    let (s, c, e, d, ds) = digits_last (suc id) id (omega arith) in
    unfold decimal in rw e (trim_end-last (codes "outbox:" ++ s) c (ground arith))

-- `parseOutboxDeliveryId` accepts exactly the positive safe integers among them.
pub parse_outbox_delivery_id-delivery_id_of :
    (id : ℕ)
    → parse_outbox_delivery_id (delivery_id_of id)
      ≡ (if leb id max_safe_integer && ltb 0 id then some id else none)
unfolding parse_outbox_delivery_id
parse_outbox_delivery_id-delivery_id_of id =
    rw (trim-delivery_id_of id, parse_outbox_delivery_id)
      (rw (outbox_number-delivery_id_of id, parse_outbox_delivery_id))
