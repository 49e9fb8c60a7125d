-- ===== src/Messaging/Consumer/Keys.antt =====
-- The keys of the table of notifications (modules/messaging/consumers).
use vaultline.Prelude.{
  ◌≡◌, refl, ◌∙◌, arith, Bool, true, false, ◌||◌, List, [], ◌∷◌, Bool-cases, inl, inr,
}
use vaultline.Common.Texts.{Text, same_text, same_text_refl, same_text_comm}
use vaultline.Messaging.Contracts.{Runtime}
use vaultline.Messaging.Consumer.{Notification, insert_or_ignore}

module _ (runtime : Runtime) (uuid : Text → Text) where
  open runtime use {Value, parse, get, show}

  -- Whether a row has the key.
  unfoldable pub is_stored : Text → List (Notification runtime uuid) → Bool
  is_stored id [] = false
  is_stored id (n ∷ rows) = same_text n.event_id id || is_stored id rows

  -- No two rows have the same key.
  unfoldable pub HasKeys : List (Notification runtime uuid) → Type 0
  HasKeys [] = Unit {0}
  HasKeys (n ∷ rows) = (is_stored n.event_id rows ≡ false) × HasKeys rows

  pub is_stored-insert :
      (n : Notification runtime uuid) (rows : List (Notification runtime uuid))
      → is_stored n.event_id (insert_or_ignore runtime uuid n rows) ≡ true
  unfolding is_stored insert_or_ignore
  is_stored-insert n [] = rw (same_text_refl n.event_id) refl
  is_stored-insert n (m ∷ rows) = elim (Bool-cases (same_text m.event_id n.event_id)) [
    | inl e ↦ rw (e, e) refl
    | inr e ↦ rw (e, e) (is_stored-insert n rows)
  ]

  pub is_stored-stays :
      (id : Text) (n : Notification runtime uuid) (rows : List (Notification runtime uuid))
      → is_stored id rows ≡ true
      → is_stored id (insert_or_ignore runtime uuid n rows) ≡ true
  unfolding is_stored insert_or_ignore
  is_stored-stays id n [] h = absurd (ground arith)
  is_stored-stays id n (m ∷ rows) h = elim (Bool-cases (same_text m.event_id n.event_id)) [
    | inl e ↦ rw e h
    | inr e ↦ rw e (ground (arith, is_stored-stays id n rows))
  ]

  pub insert-stored :
      (n : Notification runtime uuid) (rows : List (Notification runtime uuid))
      → is_stored n.event_id rows ≡ true
      → insert_or_ignore runtime uuid n rows ≡ rows
  unfolding is_stored insert_or_ignore
  insert-stored n [] h = absurd (ground arith)
  insert-stored n (m ∷ rows) h = elim (Bool-cases (same_text m.event_id n.event_id)) [
    | inl e ↦ rw e refl
    | inr e ↦
        let rest : is_stored n.event_id rows ≡ true = ground arith in
        rw (e, insert-stored n rows rest) refl
  ]

  pub not_stored-insert :
      (id : Text) (n : Notification runtime uuid) (rows : List (Notification runtime uuid))
      → same_text n.event_id id ≡ false
      → is_stored id rows ≡ false
      → is_stored id (insert_or_ignore runtime uuid n rows) ≡ false
  unfolding is_stored insert_or_ignore
  not_stored-insert id n [] h k = rw h refl
  not_stored-insert id n (m ∷ rows) h k = elim (Bool-cases (same_text m.event_id n.event_id)) [
    | inl e ↦ rw e k
    | inr e ↦ rw e (ground (arith, not_stored-insert id n rows h))
  ]

  pub insert-HasKeys :
      (n : Notification runtime uuid) (rows : List (Notification runtime uuid))
      → HasKeys rows
      → HasKeys (insert_or_ignore runtime uuid n rows)
  unfolding is_stored insert_or_ignore HasKeys
  insert-HasKeys n [] h = (refl, tt)
  insert-HasKeys n (m ∷ rows) (fresh, h) = elim (Bool-cases (same_text m.event_id n.event_id)) [
    | inl e ↦ rw e (fresh, h)
    | inr e ↦ rw e (
      not_stored-insert m.event_id n rows (same_text_comm n.event_id m.event_id ∙ e) fresh,
      insert-HasKeys n rows h,
    )
  ]
