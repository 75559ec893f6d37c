-- ===== src/Sellers/Lifecycle.antt =====
-- The draft of a verification: what a submission needs, and what a renewed challenge undoes.
use unishop_china.Prelude.{
  ℕ, ◌+◌, ◌≤◌, ◌≡◌, sym, subst, ap, ◌∙◌, true, false, not, Option, none, some, arith, Bool-cases,
  Option-cases, inl, inr, ◌==◌, ==_refl,
}
use unishop_china.Prelude.Rows.{update, select, count, top?}
use unishop_china.Prelude.Rows.Searching.{top?-update}
use unishop_china.Prelude.Rows.Selecting.{first?-select_gone}
use unishop_china.Models.{User}
use unishop_china.Accounts.Service.{Authorization, lock_active_user}
use unishop_china.Sellers.Tables
use unishop_china.Sellers.Tables.{
  VerificationStatus, EvidenceType, SellerVerification, SellerEvidence, AuditEvent, SellerDb,
  is_pending, has_kind,
}
use unishop_china.Sellers.Review.{Authorization-cases}
use unishop_china.Sellers.Service.{
  Reply, Draw, Command, renew, submit_draft, dispatch, start_or_submit,
}

module _ (lifetime actor_id : ℕ) where
  -- The evidence of the old challenge is gone.
  handwritten_gone :
      (id : ℕ) (db : SellerDb)
      → count (has_kind id EvidenceType.handwritten_code) db.evidence ≤ 1
      → (previous : Option SellerEvidence)
      → Tables.evidence_of id EvidenceType.handwritten_code db ≡ previous
      → Tables.evidence_of id EvidenceType.handwritten_code (Tables.delete_evidence previous db)
        ≡ none
  unfolding Tables.evidence_of Tables.delete_evidence
  handwritten_gone id db unique none e = e
  handwritten_gone id db unique (some previous) e =
      first?-select_gone (has_kind id EvidenceType.handwritten_code)
        (λ x. not (x.id == previous.id)) db.evidence previous unique e
        (ground (arith, ==_refl previous.id))

  -- The state that a renewal leaves.
  abbrev pub renewed : Draw → SellerVerification → SellerDb → SellerDb
  renewed draw row db =
      let previous = Tables.evidence_of row.id EvidenceType.handwritten_code db in
      Tables.delete_file draw.deleted previous (
        Tables.record_audit row.id actor_id AuditEvent.challenge_renewed (
          Tables.delete_evidence previous (
            Tables.assign row.id
              (λ v. record v {
                handwritten_challenge = draw.challenge;
                challenge_expires_at = draw.now + lifetime;
              })
              db)))

  renew_lem :
      (draw : Draw) (db db' : SellerDb)
      → start_or_submit lifetime Command.renew_challenge actor_id draw db ≡ (Reply.done, db')
      → (user : User) × (row : SellerVerification) × (lock_active_user actor_id true db.accounts
          ≡ Authorization.granted user)
        × (Tables.latest actor_id db ≡ some row)
        × (db' ≡ renewed draw row db)
  unfolding start_or_submit dispatch renew
  renew_lem draw db db' e =
      elim (Authorization-cases (lock_active_user actor_id true db.accounts)) [
        | inr (status, denied) ↦ absurd (ground arith)
        | inl (user, granted) ↦ elim (Option-cases (Tables.latest actor_id db)) [
          | inl missing ↦ absurd (ground arith)
          | inr (row, latest) ↦ elim (Bool-cases (is_pending row.status)) [
            | inr other ↦ absurd (ground arith)
            | inl pending ↦ (user, row, granted, latest, ground arith)
          ]
        ]
      ]

  renewed-latest :
      (draw : Draw) (row : SellerVerification) (db : SellerDb)
      → Tables.latest actor_id db ≡ some row
      → Tables.latest actor_id (renewed draw row db)
        ≡ some (record row {
          handwritten_challenge = draw.challenge;
          challenge_expires_at = draw.now + lifetime;
        })
  unfolding Tables.latest Tables.delete_file Tables.record_audit Tables.delete_evidence
      Tables.assign Tables.is_newer
  renewed-latest draw row db e =
      renewed-rows
      ∙ (top?-update Tables.is_newer (λ v. v.user_id == actor_id) (Tables.has_id row.id)
            (λ v. record v {
              handwritten_challenge = draw.challenge;
              challenge_expires_at = draw.now + lifetime;
            })
            db.verifications (λ x. ground arith) (λ x y. ground arith)).1
          row e
      ∙ ground (arith, ==_refl row.id)
    where
      renewed-rows :
          Tables.latest actor_id (renewed draw row db)
          ≡ top? Tables.is_newer (
              select
                (λ v. v.user_id == actor_id)
                (update
                  (Tables.has_id row.id)
                  (λ v. record v {
                    handwritten_challenge = draw.challenge;
                    challenge_expires_at = draw.now + lifetime;
                  })
                  db.verifications))
      renewed-rows = ground arith

  renewed-incomplete :
      (draw : Draw) (row : SellerVerification) (db : SellerDb)
      → count (has_kind row.id EvidenceType.handwritten_code) db.evidence ≤ 1
      → Tables.is_complete row.id (renewed draw row db) ≡ false
  unfolding Tables.is_complete Tables.delete_file Tables.record_audit Tables.assign
      Tables.evidence_of Tables.delete_evidence
  renewed-incomplete draw row db unique =
      elim (Option-cases (Tables.evidence_of row.id EvidenceType.handwritten_code db)) [
        | inl missing ↦ ground (arith, handwritten_gone row.id db unique none missing)
        | inr (previous, found) ↦
            ground (arith, handwritten_gone row.id db unique (some previous) found)
      ]

  incomplete-refused :
      (draw : Draw) (user : User) (row : SellerVerification) (db : SellerDb)
      → lock_active_user actor_id true db.accounts ≡ Authorization.granted user
      → Tables.latest actor_id db ≡ some row
      → Tables.is_complete row.id db ≡ false
      → start_or_submit lifetime Command.submit actor_id draw db ≡ (Reply.refused 409, db)
  unfolding start_or_submit dispatch submit_draft
  incomplete-refused draw user row db granted latest incomplete = ground arith

  renewed-accounts :
      (draw : Draw) (row : SellerVerification) (db : SellerDb)
      → (renewed draw row db).accounts ≡ db.accounts
  unfolding Tables.delete_file Tables.record_audit Tables.delete_evidence Tables.assign
  renewed-accounts draw row db = ground arith

  -- A renewed challenge needs new handwritten evidence: right after a renewal, where the attempts
  -- have at most one piece of evidence of a kind, a submission of the draft is refused and changes
  -- nothing.
  renew_blocks_submission :
      (draw later : Draw) (db db' : SellerDb)
      → ((id : ℕ) → count (has_kind id EvidenceType.handwritten_code) db.evidence ≤ 1)
      → start_or_submit lifetime Command.renew_challenge actor_id draw db ≡ (Reply.done, db')
      → start_or_submit lifetime Command.submit actor_id later db' ≡ (Reply.refused 409, db')
  renew_blocks_submission draw later db db' unique e =
      let (user, row, granted, latest, state) = renew_lem draw db db' e in
      subst (λ d. start_or_submit lifetime Command.submit actor_id later d ≡ (Reply.refused 409, d))
        (sym state)
        (incomplete-refused later user
          (record row {
            handwritten_challenge = draw.challenge;
            challenge_expires_at = draw.now + lifetime;
          })
          (renewed draw row db)
          (ap (lock_active_user actor_id true) (renewed-accounts draw row db) ∙ granted)
          (renewed-latest draw row db latest) (renewed-incomplete draw row db (unique row.id)))
