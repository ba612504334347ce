-- ===== src/Messaging/Producer/Batches.antt =====
-- What a batch sends to each topic, and the places that it reports.
use surgepay.Messaging.Producer.{
  locate_ready, Ready, Message, TopicMessages, RecordMetadata, group_onto, add_message,
  messages_by_topic, Prepared,
}
use surgepay.Common.{
  inr, append-nil, append_assoc, inl, eq_iff, Bool-cases, refl, arith, ap, ◌∙◌, if◌then◌else◌, ◌∷◌,
  [], ◌++◌, ◌==◌, map, Bool, ◌≡◌, keep, List, String,
}

-- The messages of the group for a topic.
abbrev pub messages_to : String → List TopicMessages → List Message
messages_to topic [] = []
messages_to topic (g ∷ gs) = if g.topic == topic then g.messages else messages_to topic gs

abbrev pub goes_to : String → Prepared → Bool
goes_to topic p = p.topic == topic

-- The messages prepared for a topic, in their order.
abbrev pub prepared_for : String → List Prepared → List Message
prepared_for topic ps = map (λ p. p.message) (keep (goes_to topic) ps)

messages_to-add_message :
    (topic : String) (p : Prepared) (gs : List TopicMessages)
    → messages_to topic (add_message p gs)
      ≡ messages_to topic gs ++ (if goes_to topic p then p.message ∷ [] else [])
unfolding add_message
messages_to-add_message topic p [] = ground arith
messages_to-add_message topic p (g ∷ gs) = elim (Bool-cases (g.topic == p.topic)) [
  | inl joined ↦ rw joined (
      ground (
        arith,
        joined,
        eq_iff g.topic p.topic,
        eq_iff g.topic topic,
        eq_iff p.topic topic,
        append-nil g.messages,
        append-nil (messages_to topic gs),
      ))
  | inr apart ↦ rw apart (elim (Bool-cases (g.topic == topic)) [
    | inl mine ↦ ground (
      arith,
      mine,
      apart,
      eq_iff g.topic p.topic,
      eq_iff g.topic topic,
      eq_iff p.topic topic,
      append-nil g.messages,
    )
    | inr other ↦ rw other (messages_to-add_message topic p gs)
  ])
]

prepared_for-cons :
    (topic : String) (p : Prepared) (ps : List Prepared) (before : List Message)
    → (before ++ (if goes_to topic p then p.message ∷ [] else [])) ++ prepared_for topic ps
      ≡ before ++ prepared_for topic (p ∷ ps)
unfolding keep
prepared_for-cons topic p ps before = elim (Bool-cases (goes_to topic p)) [
  | inl yes_sent ↦ rw (yes_sent, append_assoc before (p.message ∷ []) (prepared_for topic ps))
  | inr other ↦ rw (other, append-nil before)
]

messages_to-group_onto :
    (topic : String) (ps : List Prepared) (gs : List TopicMessages)
    → messages_to topic (group_onto gs ps) ≡ messages_to topic gs ++ prepared_for topic ps
unfolding group_onto keep
messages_to-group_onto topic [] gs = rw (append-nil (messages_to topic gs))
messages_to-group_onto topic (p ∷ ps) gs =
    messages_to-group_onto topic ps (add_message p gs)
    ∙ ap (λ x. x ++ prepared_for topic ps) (messages_to-add_message topic p gs)
    ∙ prepared_for-cons topic p ps (messages_to topic gs)

-- Each topic is handed exactly the messages prepared for it, in the order of the batch.
pub messages_by_topic_lem :
    (topic : String) (ps : List Prepared)
    → messages_to topic (messages_by_topic ps) ≡ prepared_for topic ps
unfolding messages_by_topic
messages_by_topic_lem topic ps = messages_to-group_onto topic ps []

-- Any two events of a batch for the same topic are reported at the same partition and offset,
-- whatever the broker answered for each.
pub locate_same_topic :
    (metadata : List RecordMetadata) (x y : Ready)
    → x.prepared.topic ≡ y.prepared.topic
    → ((locate_ready metadata x).partition ≡ (locate_ready metadata y).partition)
      × ((locate_ready metadata x).offset ≡ (locate_ready metadata y).offset)
locate_same_topic metadata x y same = rw same (refl, refl)
