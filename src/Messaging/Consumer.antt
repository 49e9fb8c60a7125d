-- ===== src/Messaging/Consumer.antt =====
-- modules/messaging/consumers: the worker that writes a notification for each event, and the sentence that
-- it writes. What a log line and the header of a dead letter say of an error is left out. `uuid` is the
-- form in which the database keeps an id.
pub mod Keys
pub mod Delivery
use vaultline.Prelude.{
  ℕ, Bool, true, false, Option, none, some, List, [], ◌∷◌, ◌++◌, String, if◌then◌else◌,
}
use vaultline.Common.Texts.{Text, text, same_text}
use vaultline.Messaging.Contracts.{Runtime, validate_event}

-- A message as it comes from the topic. `stored` tells whether the database takes the row; it does not
-- where it is down, a column is too short or the id is no uuid. `sent` tells whether the producer of
-- the dead letters takes the message.
pub record Delivered : Type 0 where
  pub topic : Text
  pub raw : Text
  pub stored : Bool
  pub sent : Bool

module _ (runtime : Runtime) (uuid : Text → Text) where
  open runtime use {Value, parse, get, show, to_fixed}

  abbrev pub shown : String → Value → Text
  shown key payload = show (get (text key) payload)

  abbrev pub pkr : String → Value → Text
  pkr key payload = to_fixed (get (text key) payload)

  -- The parts of a sentence, one after the other.
  abbrev pub sentence : List Text → Text
  sentence [] = []
  sentence (s ∷ parts) = s ++ sentence parts

  -- The cases of `formatNotification`, by the text of the type.
  abbrev pub sentences : Value → List (Text × Text)
  sentences p =
      (
        text "account.opened",
        sentence (
            text "Welcome "
            ∷ shown "ownerName" p
            ∷ text "! Your "
            ∷ shown "type" p
            ∷ text " account "
            ∷ shown "accountNumber" p
            ∷ text " is open."
            ∷ []),
      )
      ∷ (
        text "account.status-changed",
        sentence (
            text "Your account status changed from "
            ∷ shown "from" p
            ∷ text " to "
            ∷ shown "to" p
            ∷ text "."
            ∷ []),
      )
      ∷ (
        text "transaction.deposited",
        sentence (
            text "Deposit of "
            ∷ pkr "amountMinor" p
            ∷ text " received. New balance "
            ∷ pkr "balanceAfterMinor" p
            ∷ text ". Ref "
            ∷ shown "reference" p
            ∷ text "."
            ∷ []),
      )
      ∷ (
        text "transaction.withdrawn",
        sentence (
            text "Withdrawal of "
            ∷ pkr "amountMinor" p
            ∷ text ". New balance "
            ∷ pkr "balanceAfterMinor" p
            ∷ text ". Ref "
            ∷ shown "reference" p
            ∷ text "."
            ∷ []),
      )
      ∷ (
        text "transaction.transferred",
        sentence (
            text "Transfer of "
            ∷ pkr "amountMinor" p
            ∷ text " completed (fee "
            ∷ pkr "feeMinor" p
            ∷ text "). Ref "
            ∷ shown "reference" p
            ∷ text "."
            ∷ []),
      )
      ∷ (
        text "transaction.reversed",
        sentence (text "Transaction " ∷ shown "originalReference" p ∷ text " was reversed." ∷ []),
      )
      ∷ (
        text "loan.decided",
        sentence (
            text "Your loan application for "
            ∷ pkr "amountMinor" p
            ∷ text " is "
            ∷ shown "status" p
            ∷ text "."
            ∷ []),
      )
      ∷ (
        text "customer.onboarded",
        sentence (text "Onboarding complete for " ∷ shown "ownerName" p ∷ text "." ∷ []),
      )
      ∷ []

  unfoldable pub choose_sentence : Text → List (Text × Text) → Text
  choose_sentence t [] = text "Event " ++ t
  choose_sentence t ((key, s) ∷ rest) = if same_text key t then s else choose_sentence t rest

  unfoldable pub format_notification : Value → Text
  unfolding choose_sentence
  format_notification event =
      choose_sentence (show (get (text "eventType") event)) (sentences (get (text "payload") event))

  -- A row of `notifications`. The time of the row is left out.
  pub record Notification : Type 0 where
    pub event_id : Text
    pub event_type : Text
    pub message : Text
    pub payload : Value

  pub record DeadLetter : Type 0 where
    pub value : Text
    pub original_topic : Text

  -- The table, what was sent to the dead-letter topic, and the deliveries of which `handle` threw: they are
  -- not committed, and come again.
  pub record Worker : Type 0 where
    pub notifications : List Notification
    pub dead_letters : List DeadLetter
    pub thrown : List Delivered

  abbrev pub notification_of : Value → Notification
  notification_of event = record {
    event_id = uuid (show (get (text "eventId") event));
    event_type = show (get (text "eventType") event);
    message = format_notification event;
    payload = get (text "payload") event;
  }

  -- `insert().values(…).orIgnore()`: a row with the same primary key stays as it is.
  unfoldable pub insert_or_ignore : Notification → List Notification → List Notification
  unfolding same_text
  insert_or_ignore n [] = n ∷ []
  insert_or_ignore n (m ∷ rows) =
      if same_text m.event_id n.event_id then m ∷ rows else m ∷ insert_or_ignore n rows

  -- The `catch`, which throws where the producer does.
  unfoldable pub send_dead_letter : Delivered → Worker → Worker
  send_dead_letter m worker =
      if m.sent
      then record worker {
        dead_letters =
            worker.dead_letters ++ record { value = m.raw; original_topic = m.topic } ∷ [];
      }
      else record worker { thrown = worker.thrown ++ m ∷ [] }

  -- The event of a message that is parsed, valid and taken by the database.
  unfoldable pub accepted_event : Delivered → Option Value → Option Value
  unfolding validate_event
  accepted_event m none = none
  accepted_event m (some event) =
      if validate_event runtime event then (if m.stored then some event else none) else none

  unfoldable pub finish : Delivered → Option Value → Worker → Worker
  unfolding insert_or_ignore send_dead_letter format_notification
  finish m none worker = send_dead_letter m worker
  finish m (some event) worker = record worker {
    notifications = insert_or_ignore (notification_of event) worker.notifications;
  }

  -- `handle`
  unfoldable pub handle : Delivered → Worker → Worker
  unfolding accepted_event finish
  handle m worker = finish m (accepted_event m (parse m.raw)) worker

  -- `eachMessage`
  unfoldable pub handle_all : List Delivered → Worker → Worker
  unfolding handle
  handle_all [] worker = worker
  handle_all (m ∷ messages) worker = handle_all messages (handle m worker)
