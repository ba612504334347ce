-- ===== src/Messaging/Topics.antt =====
-- packages/common/src/messaging/topics.ts. The names that every JavaScript object inherits
-- ("constructor" and the like) are left out of the lookup.
use surgepay.Common.{none, some, ◌==◌, if◌then◌else◌, Option, String}

unfoldable pub topic_of : String → Option String
topic_of kind =
    if kind == "PaymentInitiated"
    then some "payments.initiated"
    else if kind == "payments.dlq"
    then some "payments.dlq"
    else none

unfoldable pub resolve_dlq_topic : String
resolve_dlq_topic = "payments.dlq"
