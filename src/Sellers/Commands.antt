-- ===== src/Sellers/Commands.antt =====
-- What `start_or_submit` promises, command by command.
use unishop_china.Prelude.{
  ℕ, ◌<◌, ◌≡◌, refl, sym, subst, true, Option, none, some, ◌∷◌, arith, Bool-cases, Option-cases,
  inl, inr, leb,
}
use unishop_china.Prelude.Rows.{first?}
use unishop_china.Models.{User}
use unishop_china.Accounts.Service.{Authorization, lock_active_user}
use unishop_china.Sellers.Tables
use unishop_china.Sellers.Tables.{
  VerificationStatus, SellerVerification, AuditEvent, SellerDb, is_pending, is_rejected,
}
use unishop_china.Sellers.Service.{
  Reply, Draw, Command, is_active_of, new_attempt, add_attempt, start_attempt, renew, submit_draft,
  dispatch, start_or_submit,
}
use unishop_china.Sellers.Review.{Authorization-cases}
use unishop_china.Sellers.Lifecycle.{renewed}

module _ (lifetime actor_id : ℕ) (draw : Draw) (db : SellerDb) where
  -- What a command that was carried out has found and written.
  abbrev pub Carried : Command → SellerDb → Type 0
  Carried Command.start db' =
      ((row : SellerVerification)
        → Tables.latest actor_id db ≡ some row
        → is_rejected row.status ≡ true)
      × (first? (is_active_of actor_id) db.verifications ≡ none)
      × (db'
          ≡ Tables.record_audit draw.id actor_id AuditEvent.start
              (record db { verifications = new_attempt lifetime actor_id draw ∷ db.verifications }))
  Carried Command.renew_challenge db' =
      (row : SellerVerification) × (Tables.latest actor_id db ≡ some row)
      × (is_pending row.status ≡ true)
      × (db' ≡ renewed lifetime actor_id draw row db)
  Carried Command.submit db' =
      (row : SellerVerification) × (Tables.latest actor_id db ≡ some row)
      × (is_pending row.status ≡ true)
      × (draw.now < row.challenge_expires_at)
      × (Tables.is_complete row.id db ≡ true)
      × (db'
          ≡ Tables.record_audit row.id actor_id AuditEvent.submission (
              Tables.assign row.id
                (λ v. record v {
                  status = VerificationStatus.under_review;
                  submitted_at = some draw.now;
                })
                db))
  Carried Command.invalid db' = ⊥

  -- What `start_or_submit` promises.
  abbrev pub CommandPromise : Command → Reply × SellerDb → Type 0
  CommandPromise command (Reply.done, db') =
      ((user : User) × (lock_active_user actor_id true db.accounts ≡ Authorization.granted user))
      × Carried command db'
  CommandPromise command (Reply.refused status, db') = db' ≡ db

  abbrev Dispatched : Command → Reply × SellerDb → Type 0
  Dispatched command (Reply.done, db') = Carried command db'
  Dispatched command (Reply.refused status, db') = db' ≡ db

  adds :
      first? (is_active_of actor_id) db.verifications ≡ none
      → add_attempt lifetime actor_id draw db ≡ (
        Reply.done,
        Tables.record_audit draw.id actor_id AuditEvent.start
            (record db { verifications = new_attempt lifetime actor_id draw ∷ db.verifications }),
      )
  unfolding add_attempt
  adds e = ground arith

  allows :
      (command : Command) (user : User)
      → lock_active_user actor_id true db.accounts ≡ Authorization.granted user
      → start_or_submit lifetime command actor_id draw db
        ≡ dispatch lifetime command actor_id draw (Tables.latest actor_id db) db
  unfolding start_or_submit
  allows command user granted = ground arith

  denies :
      (command : Command) (status : ℕ)
      → lock_active_user actor_id true db.accounts ≡ Authorization.denied status
      → start_or_submit lifetime command actor_id draw db ≡ (Reply.refused status, db)
  unfolding start_or_submit
  denies command status denied = ground arith

  added :
      ((row : SellerVerification)
        → Tables.latest actor_id db ≡ some row
        → is_rejected row.status ≡ true)
      → Dispatched Command.start (add_attempt lifetime actor_id draw db)
  unfolding add_attempt
  added free = elim (Option-cases (first? (is_active_of actor_id) db.verifications)) [
    | inl none_active ↦
        subst (Dispatched Command.start) (sym (adds none_active)) (free, none_active, refl)
    | inr (other, e) ↦ rw e refl
  ]

  dispatched :
      (command : Command) (row? : Option SellerVerification)
      → Tables.latest actor_id db ≡ row?
      → Dispatched command (dispatch lifetime command actor_id draw row? db)
  unfolding dispatch start_attempt renew submit_draft
  dispatched Command.start none e = added (λ row e'. absurd (ground arith))
  dispatched Command.start (some row) e = elim (Bool-cases (is_rejected row.status)) [
    | inl rejected ↦ rw rejected (added (λ other e'. ground arith))
    | inr active ↦ rw active refl
  ]
  dispatched Command.renew_challenge none e = refl
  dispatched Command.renew_challenge (some row) e = elim (Bool-cases (is_pending row.status)) [
    | inl pending ↦ rw pending (row, e, pending, refl)
    | inr other ↦ rw other refl
  ]
  dispatched Command.submit none e = refl
  dispatched Command.submit (some row) e = elim (Bool-cases (is_pending row.status)) [
    | inr other ↦ rw other refl
    | inl pending ↦ rw pending (elim (Bool-cases (leb row.challenge_expires_at draw.now)) [
      | inl late ↦ rw late refl
      | inr live ↦ rw live (elim (Bool-cases (Tables.is_complete row.id db)) [
        | inr missing ↦ rw missing refl
        | inl complete ↦ rw complete (row, e, pending, ground arith, complete, refl)
      ])
    ])
  ]
  dispatched Command.invalid row? e = refl

  pub start_or_submit-Promise :
      (command : Command)
      → CommandPromise command (start_or_submit lifetime command actor_id draw db)
  start_or_submit-Promise command =
      elim (Authorization-cases (lock_active_user actor_id true db.accounts)) [
        | inr (status, denied) ↦
            subst (CommandPromise command) (sym (denies command status denied)) refl
        | inl (user, granted) ↦
            subst (CommandPromise command) (sym (allows command user granted))
              (under user granted _ (dispatched command _ refl))
      ]
    where
      under :
          (user : User)
          → lock_active_user actor_id true db.accounts ≡ Authorization.granted user
          → (result : Reply × SellerDb) → Dispatched command result
          → CommandPromise command result
      under user granted (Reply.done, db') d = ((user, granted), d)
      under user granted (Reply.refused status, db') d = d
