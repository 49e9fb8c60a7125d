-- ===== src/Messaging/Tests.antt =====
-- The bus with a failing observer, and the worker on two deliveries of one message.
use vaultline.Prelude.{ℕ, ◌≡◌, refl, true, false, some, List, [], ◌∷◌, ◌++◌, if◌then◌else◌}
use vaultline.Prelude.Int.{pos}
use vaultline.Common.Texts.{Text, text, same_text}
use vaultline.Samples.{first_deposit}
use vaultline.Messaging.Events.{DomainEvent, money_deposited, customer_onboarded}
use vaultline.Messaging.Bus.{DomainEventObserver, Subscription, ObserverState, other}
use vaultline.Messaging.Contracts.{Runtime, all_topics}
use vaultline.Messaging.Consumer.{Delivered, DeadLetter, accepted_event, Worker, handle, handle_all}
use vaultline.Messaging.Consumer.Keys.{is_stored, HasKeys}
use vaultline.Messaging.Consumer.Delivery.{
  AreAccounted, event_of, handle_all-Delivered, handle-redelivered,
}

four_topics :
    all_topics
    ≡ text "banking.account-events"
      ∷ text "banking.transaction-events"
      ∷ text "banking.loan-events"
      ∷ text "banking.customer-events"
      ∷ []
unfolding all_topics same_text
four_topics = refl

-- It throws at every event.
abbrev broken : DomainEventObserver (ObserverState ℕ)
broken = record {
  key = 9;
  name = "broken";
  interested_in = λ e. true;
  on_event = λ e state. (some "boom", state);
}

abbrev broken_too : List (Subscription (ObserverState ℕ))
broken_too = record { observer = broken; state = other 0 } ∷ []

abbrev happened : List DomainEvent
happened =
    money_deposited 1 (pos 500) (pos 700) first_deposit ∷ customer_onboarded 1 "Alice" (pos 0) ∷ []

-- Every value is a text, which is its own payload and identifier; every event tells of an account.
abbrev texts : Runtime
texts = record {
  Value = Text;
  parse = λ s. some s;
  get = λ key v. if same_text key (text "eventType") then text "account.opened" else v;
  defined = λ v. true;
  show = λ v. v;
  to_fixed = λ v. v;
  satisfies = λ schema v. true;
  stringify = λ v. v;
}

-- Ids that are texts of themselves.
abbrev own_form : Text → Text
own_form s = s

abbrev first_message : Delivered
first_message = record {
  topic = text "banking.account-events";
  raw = text "one";
  stored = true;
  sent = true;
}

abbrev lost_message : Delivered
lost_message = record {
  topic = text "banking.account-events";
  raw = text "two";
  stored = false;
  sent = true;
}

abbrev worker : Worker texts own_form
worker = record { notifications = []; dead_letters = []; thrown = [] }

abbrev deliveries : List Delivered
deliveries = first_message ∷ lost_message ∷ first_message ∷ []

no_keys : HasKeys texts own_form worker.notifications
unfolding HasKeys
no_keys = tt

handle_all-Delivered_example :
    let worker' = handle_all texts own_form deliveries worker in
    (letters : List (DeadLetter texts own_form)) × (thrown : List Delivered) × (worker'.dead_letters
      ≡ worker.dead_letters ++ letters)
    × (worker'.thrown ≡ worker.thrown ++ thrown)
    × AreAccounted texts own_form deliveries worker'.notifications letters thrown
    × HasKeys texts own_form worker'.notifications
    × ((id : Text)
        → is_stored texts own_form id worker.notifications ≡ true
        → is_stored texts own_form id worker'.notifications ≡ true)
handle_all-Delivered_example = handle_all-Delivered texts own_form deliveries worker no_keys

taken : event_of texts own_form first_message ≡ some (text "one")
unfolding accepted_event same_text
taken = refl

handle-redelivered_example :
    handle texts own_form first_message
      (handle_all texts own_form (lost_message ∷ []) (handle texts own_form first_message worker))
    ≡ handle_all texts own_form (lost_message ∷ []) (handle texts own_form first_message worker)
handle-redelivered_example =
    handle-redelivered texts own_form first_message (text "one") (lost_message ∷ []) worker taken
