-- ===== src/Store/Numbers/Tests.antt =====
-- Delivery ids and policies on concrete values.
use ubot_ai_agent.Base.{
  ◌≡◌, refl, Option, none, some, codes, ok, throws, if◌then◌else◌, leb, ltb, ◌&&◌,
}
use ubot_ai_agent.Store.Numbers.{
  normalize_policy, deadline_before_due, delivery_id_of, outbox_number, parse_outbox_delivery_id,
  max_safe_integer,
}
use ubot_ai_agent.Store.Numbers.Laws.{
  outbox_number-delivery_id_of, parse_outbox_delivery_id-delivery_id_of,
}

delivery_id_of_120 : delivery_id_of 120 ≡ codes "outbox:120"
unfolding delivery_id_of
delivery_id_of_120 = refl

no_delivery_id : parse_outbox_delivery_id (codes "outbox:12x") ≡ none
unfolding parse_outbox_delivery_id ubot_ai_agent.Base.starts_with ubot_ai_agent.Base.trim
no_delivery_id = refl

late_policy :
    normalize_policy (record { after_ms = 5; deadline_ms = 4 }) ≡ throws deadline_before_due
unfolding normalize_policy
late_policy = refl

outbox_number_example : outbox_number (delivery_id_of 120) ≡ some 120
outbox_number_example = outbox_number-delivery_id_of 120

parse_outbox_delivery_id_example :
    parse_outbox_delivery_id (delivery_id_of 120)
    ≡ (if leb 120 max_safe_integer && ltb 0 120 then some 120 else none)
parse_outbox_delivery_id_example = parse_outbox_delivery_id-delivery_id_of 120
