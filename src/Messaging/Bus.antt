-- ===== src/Messaging/Bus.antt =====
-- modules/messaging: domain-event-bus.observer.ts, observers.ts, in-memory-event-publisher.ts and the
-- subscriptions of messaging.module.ts. An observer changes its own state only, so the order in which the
-- calls of one `publish` go on is of no matter, and the model makes them one after the other. What a log
-- line says is left out.
pub mod Recorded
use vaultline.Prelude.{
  ℕ, zero, suc, ◌+◌, Bool, true, false, Option, none, some, List, [], ◌∷◌, ◌++◌, map, String,
  if◌then◌else◌, ◌==◌, str_eq,
}
use vaultline.Messaging.Events.{
  DomainEvent, account_opened, account_status_changed, money_deposited, money_withdrawn,
  money_transferred, transaction_reversed, loan_decided, customer_onboarded,
}

-- `EventTypes`
pub data EventType : Type 0 where
  opened status_changed deposited withdrawn transferred reversed decided onboarded : EventType

abbrev pub event_type : DomainEvent → EventType
event_type (account_opened _ _ _ _ _) = opened
event_type (account_status_changed _ _ _) = status_changed
event_type (money_deposited _ _ _ _) = deposited
event_type (money_withdrawn _ _ _ _) = withdrawn
event_type (money_transferred _ _ _ _ _) = transferred
event_type (transaction_reversed _ _ _ _) = reversed
event_type (loan_decided _ _ _ _) = decided
event_type (customer_onboarded _ _ _) = onboarded

abbrev pub event_type_index : EventType → ℕ
event_type_index opened = 0
event_type_index status_changed = 1
event_type_index deposited = 2
event_type_index withdrawn = 3
event_type_index transferred = 4
event_type_index reversed = 5
event_type_index decided = 6
event_type_index onboarded = 7

abbrev pub same_event_type : EventType → EventType → Bool
same_event_type t u = event_type_index t == event_type_index u

-- `DomainEventObserver`, over what it keeps: `on_event` gives what it throws, if it does. The key tells
-- the objects of the source's `Set` apart.
pub record DomainEventObserver (S : Type 0) : Type 0 where
  pub key : ℕ
  pub name : String
  pub interested_in : DomainEvent → Bool
  pub on_event : DomainEvent → S → Option String × S

pub record Subscription (S : Type 0) : Type 0 where
  pub observer : DomainEventObserver S
  pub state : S

-- The observers in the order of their subscription, and the failures that were logged.
pub record DomainEventBus (S : Type 0) : Type 0 where
  pub observers : List (Subscription S)
  pub failures : List (String × EventType × String)

-- `Set.add`, `Set.delete`
unfoldable pub add_observer :
    {S : Type 0} → Subscription S → List (Subscription S) → List (Subscription S)
add_observer s [] = s ∷ []
add_observer s (other ∷ observers) =
    if other.observer.key == s.observer.key
    then other ∷ observers
    else other ∷ add_observer s observers

unfoldable pub delete_observer : {S : Type 0} → ℕ → List (Subscription S) → List (Subscription S)
delete_observer key [] = []
delete_observer key (other ∷ observers) =
    if other.observer.key == key then observers else other ∷ delete_observer key observers

unfoldable pub subscribe : {S : Type 0} → Subscription S → DomainEventBus S → DomainEventBus S
unfolding add_observer
subscribe s bus = record bus { observers = add_observer s bus.observers }

-- What `subscribe` returns.
unfoldable pub unsubscribe : {S : Type 0} → ℕ → DomainEventBus S → DomainEventBus S
unfolding delete_observer
unsubscribe key bus = record bus { observers = delete_observer key bus.observers }

-- One delivery: what an observer that is interested in the event makes of it.
unfoldable pub deliver :
    {S : Type 0} → DomainEvent → Subscription S → Option String × Subscription S
deliver e s =
    if s.observer.interested_in e
    then ((s.observer.on_event e s.state).0, record s { state = (s.observer.on_event e s.state).1 })
    else (none, s)

abbrev pub failure : String → EventType → Option String → List (String × EventType × String)
failure name t none = []
failure name t (some message) = (name, t, message) ∷ []

unfoldable pub failures_of :
    {S : Type 0} → DomainEvent → List (Subscription S) → List (String × EventType × String)
unfolding deliver
failures_of e [] = []
failures_of e (s ∷ observers) =
    failure s.observer.name (event_type e) (deliver e s).0 ++ failures_of e observers

-- `publish`. It never throws.
unfoldable pub publish_event : {S : Type 0} → DomainEvent → DomainEventBus S → DomainEventBus S
unfolding failures_of deliver
publish_event e bus = record {
  observers = map (λ s. (deliver e s).1) bus.observers;
  failures = bus.failures ++ failures_of e bus.observers;
}

-- `observerNames`
abbrev pub observer_names : {S : Type 0} → DomainEventBus S → List String
observer_names bus = map (λ s. s.observer.name) bus.observers

-- The counts of `EventMetricsObserver`.
abbrev pub Counts : Type 0
Counts = List (EventType × ℕ)

unfoldable pub count_of_type : EventType → Counts → Option ℕ
count_of_type t [] = none
count_of_type t ((u, n) ∷ counts) = if same_event_type u t then some n else count_of_type t counts

-- `counts.set(eventType, (counts.get(eventType) ?? 0) + 1)`
unfoldable pub add_count : EventType → Counts → Counts
add_count t [] = (t, 1) ∷ []
add_count t ((u, n) ∷ counts) =
    if same_event_type u t then (u, n + 1) ∷ counts else (u, n) ∷ add_count t counts

-- What each of the three observers keeps: the events whose lines it wrote, those that the in-memory publisher
-- has, the counts; and what another observer keeps.
pub data ObserverState (S : Type 0) : Type 0 where
  audit published : List DomainEvent → ObserverState S
  metrics : Counts → ObserverState S
  other : S → ObserverState S

abbrev pub write_line :
    {S : Type 0} → DomainEvent → ObserverState S → Option String × ObserverState S
write_line e (audit lines) = (none, audit (lines ++ e ∷ []))
write_line e state = (none, state)

abbrev pub forward : {S : Type 0} → DomainEvent → ObserverState S → Option String × ObserverState S
forward e (published events) = (none, published (events ++ e ∷ []))
forward e state = (none, state)

abbrev pub count_event :
    {S : Type 0} → DomainEvent → ObserverState S → Option String × ObserverState S
count_event e (metrics counts) = (none, metrics (add_count (event_type e) counts))
count_event e state = (none, state)

-- `AuditLogObserver`, `EventForwardingObserver` with the in-memory publisher, `EventMetricsObserver`.
abbrev pub audit_log_observer : {S : Type 0} → DomainEventObserver (ObserverState S)
audit_log_observer = record {
  key = 0;
  name = "audit-log";
  interested_in = λ e. true;
  on_event = write_line;
}

abbrev pub event_forwarding_observer : {S : Type 0} → DomainEventObserver (ObserverState S)
event_forwarding_observer = record {
  key = 1;
  name = "event-forwarder";
  interested_in = λ e. true;
  on_event = forward;
}

abbrev pub event_metrics_observer : {S : Type 0} → DomainEventObserver (ObserverState S)
event_metrics_observer = record {
  key = 2;
  name = "event-metrics";
  interested_in = λ e. true;
  on_event = count_event;
}

-- `MessagingModule.onModuleInit`
unfoldable pub on_module_init :
    {S : Type 0} → DomainEventBus (ObserverState S) → DomainEventBus (ObserverState S)
unfolding subscribe
on_module_init bus =
    subscribe (record { observer = event_metrics_observer; state = metrics [] })
      (subscribe (record { observer = event_forwarding_observer; state = published [] })
        (subscribe (record { observer = audit_log_observer; state = audit [] }) bus))

abbrev pub new_bus : {S : Type 0} → DomainEventBus S
new_bus = record { observers = []; failures = [] }

unfoldable pub publish_all : {S : Type 0} → List DomainEvent → DomainEventBus S → DomainEventBus S
unfolding publish_event
publish_all [] bus = bus
publish_all (e ∷ events) bus = publish_all events (publish_event e bus)

-- `subscribe`, for each of a list.
unfoldable pub subscribe_all :
    {S : Type 0} → List (Subscription S) → DomainEventBus S → DomainEventBus S
unfolding subscribe
subscribe_all [] bus = bus
subscribe_all (s ∷ more) bus = subscribe_all more (subscribe s bus)
