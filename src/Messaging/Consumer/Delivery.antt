-- ===== src/Messaging/Consumer/Delivery.antt =====
-- No message is lost, and none is written twice.
use mathlib.Core.Path.{subst}
use vaultline.Prelude.{
  ◌≡◌, refl, sym, ap, ◌∙◌, arith, true, false, Option, none, some, List, [], ◌∷◌, ◌++◌,
  append_assoc, append-nil, Bool-cases, Option-cases, inl, inr, ◌⊎◌,
}
use vaultline.Common.Texts.{Text, text}
use vaultline.Messaging.Contracts.{Runtime, validate_event}
use vaultline.Messaging.Consumer.{
  Delivered, Notification, DeadLetter, Worker, notification_of, insert_or_ignore, send_dead_letter,
  accepted_event, finish, handle, handle_all,
}
use vaultline.Messaging.Consumer.Keys.{
  is_stored, HasKeys, is_stored-insert, is_stored-stays, insert-stored, insert-HasKeys,
}

differ : false ≡ true → ⊥
differ h = ground arith

no_value : {A : Type 0} (a : A) → none ≡ some a → ⊥
no_value a h = ground arith

same_value : {A : Type 0} (a b : A) → some a ≡ some b → a ≡ b
same_value a b h = ground arith

module _ (runtime : Runtime) (uuid : Text → Text) where
  open runtime use {Value, parse, get, show}

  -- The event of a message that is parsed, valid and taken by the database.
  abbrev pub event_of : Delivered → Option Value
  event_of m = accepted_event runtime uuid m (parse m.raw)

  -- The message is a text of JSON, the event in it passes `validateEvent`, and the database takes its row.
  abbrev pub IsTaken : Delivered → Value → Type 0
  IsTaken m event =
      (parse m.raw ≡ some event) × (validate_event runtime event ≡ true) × (m.stored ≡ true)

  -- What a message comes to: there is a row with the id of its event, or it is not taken and the letter
  -- with its text and its topic was sent or, where that failed, the call threw.
  abbrev pub IsAccounted :
      Delivered
      → List (Notification runtime uuid)
      → List (DeadLetter runtime uuid)
      → List Delivered
      → Type 0
  IsAccounted m rows letters thrown =
      ((event : Value) × IsTaken m event
        × (is_stored runtime uuid (uuid (show (get (text "eventId") event))) rows ≡ true)
        × (letters ≡ [])
        × (thrown ≡ []))
      ⊎ (¬ ((event : Value) × IsTaken m event)
          × (((m.sent ≡ true)
                × (letters ≡ record { value = m.raw; original_topic = m.topic } ∷ [])
                × (thrown ≡ []))
              ⊎ ((m.sent ≡ false) × (letters ≡ []) × (thrown ≡ m ∷ []))))

  -- The messages, in their order, come to these letters and these throws.
  unfoldable pub AreAccounted :
      List Delivered
      → List (Notification runtime uuid)
      → List (DeadLetter runtime uuid)
      → List Delivered
      → Type 0
  AreAccounted [] rows letters thrown = (letters ≡ []) × (thrown ≡ [])
  AreAccounted (m ∷ messages) rows letters thrown =
      (own : List (DeadLetter runtime uuid)) × (rest : List (DeadLetter runtime uuid))
      × (own_throw : List Delivered) × (more : List Delivered) × (letters ≡ own ++ rest)
      × (thrown ≡ own_throw ++ more)
      × IsAccounted m rows own own_throw
      × AreAccounted messages rows rest more

  IsAccounted-stays :
      (m : Delivered) (rows rows' : List (Notification runtime uuid))
      (letters : List (DeadLetter runtime uuid)) (thrown : List Delivered)
      → ((id : Text)
          → is_stored runtime uuid id rows ≡ true
          → is_stored runtime uuid id rows' ≡ true)
      → IsAccounted m rows letters thrown
      → IsAccounted m rows' letters thrown
  IsAccounted-stays m rows rows' letters thrown keeps
        (inl (event, taken, own, none_sent, none_thrown)) =
      inl (event, taken, keeps _ own, none_sent, none_thrown)
  IsAccounted-stays m rows rows' letters thrown keeps (inr h) = inr h

  -- A message is taken, and its event is that of `event_of`, or it is not taken.
  event_of-cases :
      (m : Delivered)
      → ((event : Value) × IsTaken m event × (event_of m ≡ some event))
        ⊎ ((event_of m ≡ none) × ¬ ((event : Value) × IsTaken m event))
  unfolding accepted_event
  event_of-cases m = elim (Option-cases (parse m.raw)) [
    | inl e ↦ rw e (inr (refl, λ h. no_value h.0 h.1.0))
    | inr (event, e) ↦ elim (Bool-cases (validate_event runtime event)) [
      | inl valid ↦ elim (Bool-cases m.stored) [
        | inl stored ↦ inl (event, (e, valid, stored), rw (e, valid, stored) refl)
        | inr lost ↦ inr (rw (e, valid, lost) refl, λ h. differ (sym lost ∙ h.1.2))
      ]
      | inr wrong ↦ inr (
        rw (e, wrong) refl,
        λ h. differ (
            sym wrong ∙ ap (validate_event runtime) (same_value event h.0 (sym e ∙ h.1.0)) ∙ h.1.1),
      )
    ]
  ]

  abbrev pub IsWritten : Option Value → List (Notification runtime uuid) → Type 0
  IsWritten none rows = Unit {0}
  IsWritten (some event) rows =
      is_stored runtime uuid (uuid (show (get (text "eventId") event))) rows ≡ true

  -- The letter and the throw of a message.
  abbrev LeavesLetters :
      Delivered → Option Value → Worker runtime uuid → Worker runtime uuid → Type 0
  LeavesLetters m event worker worker' =
      (own : List (DeadLetter runtime uuid)) × (own_throw : List Delivered) × (worker'.dead_letters
        ≡ worker.dead_letters ++ own)
      × (worker'.thrown ≡ worker.thrown ++ own_throw)
      × (event_of m ≡ event → IsAccounted m worker'.notifications own own_throw)

  not-IsTaken : (m : Delivered) → event_of m ≡ none → ¬ ((event : Value) × IsTaken m event)
  not-IsTaken m own = elim (event_of-cases m) [
    | inl (e, taken, is_its) ↦ absurd (no_value e (sym own ∙ is_its))
    | inr (nothing, lost) ↦ lost
  ]

  letter_sent :
      (m : Delivered) (worker : Worker runtime uuid)
      → m.sent ≡ true
      → send_dead_letter runtime uuid m worker ≡ record worker {
        dead_letters =
            worker.dead_letters ++ record { value = m.raw; original_topic = m.topic } ∷ [];
      }
  unfolding send_dead_letter
  letter_sent m worker sent = rw sent refl

  letter_lost :
      (m : Delivered) (worker : Worker runtime uuid)
      → m.sent ≡ false
      → send_dead_letter runtime uuid m worker ≡ record worker { thrown = worker.thrown ++ m ∷ [] }
  unfolding send_dead_letter
  letter_lost m worker lost = rw lost refl

  finish-LeavesLetters :
      (m : Delivered) (event : Option Value) (worker : Worker runtime uuid)
      → LeavesLetters m event worker (finish runtime uuid m event worker)
  unfolding finish
  finish-LeavesLetters m (some event) worker = (
    [],
    [],
    sym (append-nil worker.dead_letters),
    sym (append-nil worker.thrown),
    λ own. elim (event_of-cases m) [
      | inl (e, taken, is_its) ↦ inl (
        e,
        taken,
        ap
              (λ v. is_stored runtime uuid (uuid (show (get (text "eventId") v))) (
                insert_or_ignore runtime uuid (notification_of runtime uuid event)
                  worker.notifications))
              (same_value e event (sym is_its ∙ own))
            ∙ is_stored-insert runtime uuid (notification_of runtime uuid event)
                worker.notifications,
        refl,
        refl,
      )
      | inr (nothing, lost) ↦ absurd (no_value event (sym nothing ∙ own))
    ],
  )
  finish-LeavesLetters m none worker = elim (Bool-cases m.sent) [
    | inl sent ↦ subst (LeavesLetters m none worker) (sym (letter_sent m worker sent)) (
      record { value = m.raw; original_topic = m.topic } ∷ [],
      [],
      refl,
      sym (append-nil worker.thrown),
      λ own. inr (not-IsTaken m own, inl (sent, refl, refl)),
    )
    | inr failed ↦ subst (LeavesLetters m none worker) (sym (letter_lost m worker failed)) (
      [],
      m ∷ [],
      sym (append-nil worker.dead_letters),
      refl,
      λ own. inr (not-IsTaken m own, inr (failed, refl, refl)),
    )
  ]

  -- What a message leaves of the table.
  finish-Leaves :
      (m : Delivered) (event : Option Value) (worker : Worker runtime uuid)
      → let worker' = finish runtime uuid m event worker in
        IsWritten event worker'.notifications
        × ((id : Text)
            → is_stored runtime uuid id worker.notifications ≡ true
            → is_stored runtime uuid id worker'.notifications ≡ true)
        × (HasKeys runtime uuid worker.notifications → HasKeys runtime uuid worker'.notifications)
  unfolding finish send_dead_letter
  finish-Leaves m none worker = elim (Bool-cases m.sent) [
    | inl e ↦ rw e (tt, λ id h. h, λ h. h)
    | inr e ↦ rw e (tt, λ id h. h, λ h. h)
  ]
  finish-Leaves m (some event) worker =
      let n = notification_of runtime uuid event in
      (
        is_stored-insert runtime uuid n worker.notifications,
        λ id. is_stored-stays runtime uuid id n worker.notifications,
        insert-HasKeys runtime uuid n worker.notifications,
      )

  IsWritten-stays :
      (event : Option Value) (rows rows' : List (Notification runtime uuid))
      → ((id : Text)
          → is_stored runtime uuid id rows ≡ true
          → is_stored runtime uuid id rows' ≡ true)
      → IsWritten event rows
      → IsWritten event rows'
  IsWritten-stays none rows rows' keeps h = tt
  IsWritten-stays (some event) rows rows' keeps h = keeps _ h

  -- The letters and the throws of some messages.
  abbrev Comes : List Delivered → Worker runtime uuid → Worker runtime uuid → Type 0
  Comes messages worker worker' =
      (letters : List (DeadLetter runtime uuid)) × (thrown : List Delivered) × (worker'.dead_letters
        ≡ worker.dead_letters ++ letters)
      × (worker'.thrown ≡ worker.thrown ++ thrown)
      × AreAccounted messages worker'.notifications letters thrown

  -- What a list of messages leaves.
  handle_all-Leaves :
      (messages : List Delivered) (worker : Worker runtime uuid)
      → let worker' = handle_all runtime uuid messages worker in
        Comes messages worker worker'
        × ((id : Text)
            → is_stored runtime uuid id worker.notifications ≡ true
            → is_stored runtime uuid id worker'.notifications ≡ true)
        × (HasKeys runtime uuid worker.notifications → HasKeys runtime uuid worker'.notifications)
  unfolding handle_all handle AreAccounted
  handle_all-Leaves [] worker = (
    ([], [], sym (append-nil worker.dead_letters), sym (append-nil worker.thrown), (refl, refl)),
    λ id h. h,
    λ h. h,
  )
  handle_all-Leaves (m ∷ messages) worker =
      let worker₁ = handle runtime uuid m worker in
      let (written, stays, keys) = finish-Leaves m (event_of m) worker in
      let (own, own_throw, letter, throw, accounted) = finish-LeavesLetters m (event_of m) worker in
      let ((rest, more, letters, throws, others), stays', keys') =
        handle_all-Leaves messages worker₁ in
      (
        (
          own ++ rest,
          own_throw ++ more,
          letters
              ∙ ap (λ before. before ++ rest) letter
              ∙ append_assoc worker.dead_letters own rest,
          throws ∙ ap (λ before. before ++ more) throw ∙ append_assoc worker.thrown own_throw more,
          (
            own,
            rest,
            own_throw,
            more,
            refl,
            refl,
            IsAccounted-stays m worker₁.notifications _ own own_throw stays' (accounted refl),
            others,
          ),
        ),
        λ id h. stays' id (stays id h),
        λ h. keys' (keys h),
      )

  -- Of any messages that a worker handles whose table has no key twice, each is accounted for. If it is a text
  -- of JSON, the event in it is valid and the database takes the row, the table has a row with the id of the
  -- event. If not, the message goes to the dead letters as it came, with its topic; where the producer of
  -- the dead letters fails, the call throws. The letters and the throws are these and no others, in the
  -- order of the messages. The table still has no key twice, and the keys that it had.
  pub handle_all-Delivered :
      (messages : List Delivered) (worker : Worker runtime uuid)
      → HasKeys runtime uuid worker.notifications
      → let worker' = handle_all runtime uuid messages worker in
        (letters : List (DeadLetter runtime uuid)) × (thrown : List Delivered)
        × (worker'.dead_letters ≡ worker.dead_letters ++ letters)
        × (worker'.thrown ≡ worker.thrown ++ thrown)
        × AreAccounted messages worker'.notifications letters thrown
        × HasKeys runtime uuid worker'.notifications
        × ((id : Text)
            → is_stored runtime uuid id worker.notifications ≡ true
            → is_stored runtime uuid id worker'.notifications ≡ true)
  handle_all-Delivered messages worker keyed =
      let ((letters, thrown, sent, threw, accounted), stays, keys) =
        handle_all-Leaves messages worker in
      (letters, thrown, sent, threw, accounted, keys keyed, stays)

  finish-again :
      (m : Delivered) (event : Value) (worker : Worker runtime uuid)
      → IsWritten (some event) worker.notifications
      → finish runtime uuid m (some event) worker ≡ worker
  unfolding finish
  finish-again m event worker h =
      ap (λ rows. record worker { notifications = rows })
        (insert-stored runtime uuid (notification_of runtime uuid event) worker.notifications h)

  -- A message that parses, is valid and is taken by the database changes nothing when it is delivered again
  -- after it was handled, whatever has been handled since.
  pub handle-redelivered :
      (m : Delivered) (event : Value) (messages : List Delivered) (worker : Worker runtime uuid)
      → event_of m ≡ some event
      → handle runtime uuid m (handle_all runtime uuid messages (handle runtime uuid m worker))
        ≡ handle_all runtime uuid messages (handle runtime uuid m worker)
  unfolding handle
  handle-redelivered m event messages worker taken =
      let worker₁ = handle runtime uuid m worker in
      let (own, stays, keys) = finish-Leaves m (event_of m) worker in
      let (comes, stays', keys') = handle_all-Leaves messages worker₁ in
      ap (λ e. finish runtime uuid m e (handle_all runtime uuid messages worker₁)) taken
      ∙ finish-again m event (handle_all runtime uuid messages worker₁) (
          subst (λ e. IsWritten e (handle_all runtime uuid messages worker₁).notifications) taken
            (IsWritten-stays (event_of m) worker₁.notifications _ stays' own))
