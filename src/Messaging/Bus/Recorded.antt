-- ===== src/Messaging/Bus/Recorded.antt =====
-- What the observers of the module have recorded, whoever else is subscribed.
use vaultline.Prelude.{ℕ, suc, Bool, true, false, Option, none, some, List, [], ◌∷◌, if◌then◌else◌}
use vaultline.Messaging.Events.{DomainEvent}
use vaultline.Messaging.Bus.{
  EventType, event_type, same_event_type, Subscription, deliver, Counts, add_count, ObserverState,
  audit, published, metrics, audit_log_observer, event_forwarding_observer, event_metrics_observer,
}

-- The number of events of a type.
unfoldable pub occurrences : EventType → List DomainEvent → ℕ
occurrences t [] = 0
occurrences t (e ∷ events) =
    let rest = occurrences t events in if same_event_type (event_type e) t then suc rest else rest

abbrev pub counted : Option ℕ → ℕ
counted none = 0
counted (some n) = n

abbrev one_if : Bool → ℕ
one_if true = 1
one_if false = 0

-- The counts after a list of events.
abbrev pub count_all : List DomainEvent → Counts → Counts
count_all [] counts = counts
count_all (e ∷ events) counts = count_all events (add_count (event_type e) counts)

module _ {S : Type 0} where
  -- What a subscriber makes of a list of events, without a look at the others.
  abbrev pub hear : List DomainEvent → Subscription S → Subscription S
  hear [] s = s
  hear (e ∷ events) s = hear events (deliver e s).1

module _ {S : Type 0} where
  -- The three observers of the module, with what they keep.
  abbrev pub recorded :
      List DomainEvent → List DomainEvent → Counts → List (Subscription (ObserverState S))
  recorded lines events counts =
      record { observer = audit_log_observer; state = audit lines }
      ∷ record { observer = event_forwarding_observer; state = published events }
      ∷ record { observer = event_metrics_observer; state = metrics counts }
      ∷ []
