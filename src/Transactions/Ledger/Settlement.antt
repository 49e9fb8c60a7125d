-- ===== src/Transactions/Ledger/Settlement.antt =====
-- What the postings of a transfer leave in the tables.
use vaultline.Prelude.{ℕ, ◌≡◌, ◌≢◌, ap, ◌∙◌, arith, some, inl, inr, Bool-cases, ◌==◌, if◌then◌else◌}
use vaultline.Prelude.Int.{ℤ, pos, neg, ◌+ℤ◌, ◌≤ℤ◌, int_laws, ltb_ℤ, neg-+ℤ, +ℤ-not_pos}
use vaultline.Entities.{
  Account, Reference, Database, LedgerEntryType, Description, plain, transfer_between,
}
use vaultline.Transactions.Ledger.Tables.{find_account, total_balance}
use vaultline.Transactions.Ledger.Postings.{Clock, post, credited}
use vaultline.Transactions.Ledger.Soundness.{
  IsSound, Posted, post-Posted, Posted-trans, find_account-Posted,
}
use vaultline.Transactions.Ledger.Operations.{LedgerTransferInput, transfer_postings, get_or}

module _ (clock : Clock) (input : LedgerTransferInput) (reference : Reference) (db : Database) where
  module _ (from to : Account) where
    -- The tables after the postings of a transfer.
    abbrev pub Transferred : Database → Type 0
    Transferred db' =
        ((j : ℕ)
          → find_account j db'.accounts ≡ (
              if from.id == j
              then some (credited from (neg (input.amount_minor +ℤ input.fee_minor)))
              else if to.id == j
              then some (credited to input.amount_minor)
              else find_account j db.accounts))
        × (total_balance db'.accounts +ℤ input.fee_minor ≡ total_balance db.accounts)

    -- The two debits, of which the second is made only for a positive fee.
    abbrev transfer_text : Description
    transfer_text =
        get_or input.description (transfer_between from.account_number to.account_number)

    abbrev debited : Account × Database
    debited =
        let (_, from₁, db₁) =
          post clock from (neg input.amount_minor) LedgerEntryType.transfer_out reference
            transfer_text db in
        let (_, from₂, db₂) =
          post clock from₁ (neg input.fee_minor) LedgerEntryType.fee reference
            (plain "Transfer fee") db₁ in
        if ltb_ℤ (pos 0) input.fee_minor then (from₂, db₂) else (from₁, db₁)

    debited-Posted :
        find_account from.id db.accounts ≡ some from
        → pos 0 ≤ℤ input.fee_minor
        → Posted from (neg (input.amount_minor +ℤ input.fee_minor)) db debited.1
    unfolding post
    debited-Posted hf fee = elim (Bool-cases (ltb_ℤ (pos 0) input.fee_minor)) [
      | inl charged ↦
          rw (charged, neg-+ℤ)
            (let once =
                post-Posted clock from (neg input.amount_minor) _ reference transfer_text db hf in
              Posted-trans from _ (neg input.fee_minor) db _ _ (omega int_laws) once
                (post-Posted clock _ _ _ _ _ _ (find_account-Posted from _ db _ once)))
      | inr free ↦
          let unchanged : input.amount_minor +ℤ input.fee_minor ≡ input.amount_minor =
            +ℤ-not_pos input.amount_minor input.fee_minor free fee in
          rw (free, unchanged) (post-Posted clock from _ _ _ _ db hf)
    ]

    pub transfer_postings-Transferred :
        find_account from.id db.accounts ≡ some from
        → find_account to.id db.accounts ≡ some to
        → from.id ≢ to.id
        → pos 0 ≤ℤ input.fee_minor
        → pos 1 ≤ℤ input.amount_minor
        → input.amount_minor +ℤ input.fee_minor ≤ℤ from.balance_minor
        → Transferred (transfer_postings clock input reference from to db).1
          × (IsSound db → IsSound (transfer_postings clock input reference from to db).1)
    unfolding transfer_postings
    transfer_postings-Transferred hf ht ne fee amount covered =
        let debit = debited-Posted hf fee in
        let target : find_account to.id debited.1.accounts ≡ some to =
          ground (arith, debit.0 to.id) in
        let credit =
          post-Posted clock to input.amount_minor LedgerEntryType.transfer_in reference
            transfer_text debited.1 target in
        (
          (
            λ j. ground (arith, debit.0 j, credit.0 j),
            ap (λ (n : ℤ). n +ℤ input.fee_minor) credit.1
                ∙ ap (λ (n : ℤ). n +ℤ input.amount_minor +ℤ input.fee_minor) debit.1
                ∙ back (total_balance db.accounts) input.amount_minor input.fee_minor,
          ),
          λ sound.
              credit.2 (debit.2 sound (omega int_laws))
                (omega (int_laws, sound.funded to.id to ht)),
        )
      where
        back : (t a f : ℤ) → t +ℤ neg (a +ℤ f) +ℤ a +ℤ f ≡ t
        back t a f = omega int_laws
