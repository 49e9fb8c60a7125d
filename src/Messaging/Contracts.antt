-- ===== src/Messaging/Contracts.antt =====
-- modules/messaging/domain-events.ts and kafka-event-publisher.adapter.ts: the names of the events, what
-- their payloads must have, where they are sent, and the adapter that sends them. A value of the language
-- (parsed JSON) and the validator of the schemas (Joi) are parameters.
use vaultline.Prelude.{
  ℕ, ◌+◌, ◌*◌, min, Bool, true, false, Option, none, some, List, [], ◌∷◌, ◌++◌, map, if◌then◌else◌,
  ◌==◌,
}
use vaultline.Prelude.Int.{ℤ, pos}
use vaultline.Common.Texts.{Text, text, same_text}

-- The kinds of rule that the schemas use.
pub data Rule : Type 0 where
  uuid any_string iso_date object integer positive_integer : Rule
  string_of_length : ℕ → Rule
  integer_from : ℤ → Rule
  one_of : List Text → Rule
  exactly : ℤ → Rule

-- Every key of a schema is required.
abbrev pub ObjectSchema : Type 0
ObjectSchema = List (Text × Rule)

-- The language's values and the validator: `get` is `value[key]`, `defined` tells a value from `undefined` and
-- `null`, `show` is the value in a text, `to_fixed` is `(Number(value) / 100).toFixed(2)`.
pub record Runtime : Type 1 where
  pub Value : Type 0
  pub parse : Text → Option Value
  pub get : Text → Value → Value
  pub defined : Value → Bool
  pub show : Value → Text
  pub to_fixed : Value → Text
  pub satisfies : ObjectSchema → Value → Bool
  pub stringify : Value → Text

-- `EventTypes`
abbrev pub event_types : List Text
event_types =
    text "account.opened"
    ∷ text "account.status-changed"
    ∷ text "transaction.deposited"
    ∷ text "transaction.withdrawn"
    ∷ text "transaction.transferred"
    ∷ text "transaction.reversed"
    ∷ text "loan.decided"
    ∷ text "customer.onboarded"
    ∷ []

abbrev pub movement_schema : ObjectSchema
movement_schema =
    (text "accountId", uuid)
    ∷ (text "amountMinor", positive_integer)
    ∷ (text "balanceAfterMinor", integer)
    ∷ (text "reference", any_string)
    ∷ []

-- `payloadSchemas`
abbrev pub payload_schemas : List (Text × ObjectSchema)
payload_schemas =
    (
      text "account.opened",
      (text "accountId", uuid)
          ∷ (text "accountNumber", any_string)
          ∷ (text "ownerName", any_string)
          ∷ (text "type", any_string)
          ∷ (text "currency", string_of_length 3)
          ∷ [],
    )
    ∷ (
      text "account.status-changed",
      (text "accountId", uuid) ∷ (text "from", any_string) ∷ (text "to", any_string) ∷ [],
    )
    ∷ (text "transaction.deposited", movement_schema)
    ∷ (text "transaction.withdrawn", movement_schema)
    ∷ (
      text "transaction.transferred",
      (text "fromAccountId", uuid)
          ∷ (text "toAccountId", uuid)
          ∷ (text "amountMinor", positive_integer)
          ∷ (text "feeMinor", integer_from (pos 0))
          ∷ (text "reference", any_string)
          ∷ [],
    )
    ∷ (
      text "transaction.reversed",
      (text "accountId", uuid)
          ∷ (text "originalReference", any_string)
          ∷ (text "reference", any_string)
          ∷ (text "amountMinor", integer)
          ∷ [],
    )
    ∷ (
      text "loan.decided",
      (text "loanId", uuid)
          ∷ (text "accountId", uuid)
          ∷ (text "status", any_string)
          ∷ (text "amountMinor", positive_integer)
          ∷ [],
    )
    ∷ (
      text "customer.onboarded",
      (text "accountId", uuid)
          ∷ (text "ownerName", any_string)
          ∷ (text "initialDepositMinor", integer_from (pos 0))
          ∷ [],
    )
    ∷ []

-- `envelopeSchema`
abbrev pub envelope_schema : ObjectSchema
envelope_schema =
    (text "eventId", uuid)
    ∷ (text "eventType", one_of event_types)
    ∷ (text "occurredAt", iso_date)
    ∷ (text "schemaVersion", exactly (pos 1))
    ∷ (text "payload", object)
    ∷ []

unfoldable pub find_schema : Text → List (Text × ObjectSchema) → Option ObjectSchema
find_schema t [] = none
find_schema t ((key, schema) ∷ schemas) =
    if same_text key t then some schema else find_schema t schemas

-- The text before the first full stop.
unfoldable pub first_segment : Text → Text
first_segment [] = []
first_segment (c ∷ s) = let rest = first_segment s in if c == 46 then [] else c ∷ rest

-- `topicFor`
unfoldable pub topic_for : Text → Text
unfolding first_segment
topic_for event_type = text "banking." ++ (first_segment event_type ++ text "-events")

abbrev pub mem_text : Text → List Text → Bool
mem_text t [] = false
mem_text t (s ∷ texts) = if same_text s t then true else mem_text t texts

-- `new Set(…)`: each text once, where it first stands.
unfoldable pub distinct_from : List Text → List Text → List Text
distinct_from known [] = []
distinct_from known (t ∷ texts) =
    let fresh = distinct_from (t ∷ known) texts in
    let old = distinct_from known texts in if mem_text t known then old else t ∷ fresh

-- `ALL_TOPICS`
unfoldable pub all_topics : List Text
unfolding distinct_from topic_for
all_topics = distinct_from [] (map topic_for event_types)

abbrev pub dead_letter_topic : Text
dead_letter_topic = text "banking.dead-letter"

module _ (runtime : Runtime) where
  open runtime use {Value, parse, get, defined, show, to_fixed, satisfies, stringify}

  unfoldable pub satisfies_payload : Option ObjectSchema → Value → Bool
  satisfies_payload none payload = false
  satisfies_payload (some schema) payload = satisfies schema payload

  -- `validateEvent`, whether the event is valid.
  unfoldable pub validate_event : Value → Bool
  unfolding find_schema satisfies_payload
  validate_event event =
      if satisfies envelope_schema event
      then satisfies_payload (find_schema (show (get (text "eventType") event)) payload_schemas)
          (get (text "payload") event)
      else false

  -- `partitionKeyFor`
  unfoldable pub partition_key_for : Value → Text
  partition_key_for event =
      let payload = get (text "payload") event in
      let account = get (text "accountId") payload in
      let from = get (text "fromAccountId") payload in
      show (
        if defined account
        then account
        else if defined from
        then from
        else get (text "eventId") event)

  pub record Sent : Type 0 where
    pub topic : Text
    pub key : Text
    pub value : Text
    pub headers : List (Text × Text)

  -- `KafkaEventPublisherAdapter`: whether it is connected, and what the producer was given.
  pub record KafkaEventPublisherAdapter : Type 0 where
    pub connected : Bool
    pub sent : List Sent

  abbrev pub message_of : Value → Sent
  message_of event = record {
    topic = topic_for (show (get (text "eventType") event));
    key = partition_key_for event;
    value = stringify event;
    headers =
        (text "event-type", show (get (text "eventType") event))
        ∷ (text "schema-version", show (get (text "schemaVersion") event))
        ∷ [];
  }

  -- `publish`: whether it returns, and the adapter after it.
  unfoldable pub publish_to_kafka :
      Value → KafkaEventPublisherAdapter → Bool × KafkaEventPublisherAdapter
  unfolding topic_for partition_key_for
  publish_to_kafka event adapter =
      if adapter.connected
      then (true, record adapter { sent = adapter.sent ++ message_of event ∷ [] })
      else (false, adapter)

-- `connectWithRetry`, as far as the attempts go that are given with their outcome: whether it is connected,
-- and the delays in milliseconds.
unfoldable pub connect_with_retry : ℕ → List Bool → Bool × List ℕ
connect_with_retry attempt [] = (false, [])
connect_with_retry attempt (true ∷ outcomes) = (true, [])
connect_with_retry attempt (false ∷ outcomes) =
    let (connected, delays) = connect_with_retry (attempt + 1) outcomes in
    (connected, min 30_000 (1000 * attempt) ∷ delays)
