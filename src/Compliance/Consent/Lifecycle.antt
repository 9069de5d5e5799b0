-- ===== src/Compliance/Consent/Lifecycle.antt =====
-- What becomes of a consent record once it is withdrawn, or when another tenant asks.
use tinai_infra.Prelude.{
  ℕ, ◌≡◌, ◌≢◌, ◌⊎◌, refl, ◌∙◌, ap, inl, inr, Bool, true, false, none, some, arith, is_some, find,
  update_where, send, fail, commit, pass, ==_refl, if◌then◌else◌, Option-cases, find-holds,
  find-update_where, find-update_where_gone, commit-keeps, commit-sent, find-append_hit,
}
use tinai_infra.Compliance.{ConsentRow, Db, write_audit_event-tables}
use tinai_infra.Compliance.Consent.{
  is_consent, is_standing, withdrawn, not_standing, withdrawable, withdraw_consent, create_consent,
  ConsentBody,
}

-- What a passed check has found.
withdrawable_row :
    (tenant id : ℕ) (db : Db) (u : ConsentRow)
    → withdrawable tenant id db ≡ pass u
    → (r : ConsentRow) × (find (is_consent id) db.consent_records ≡ some r)
      × (r.tenant_id ≡ tenant)
      × (find (is_standing id) db.consent_records ≡ some u)
withdrawable_row tenant id db u h = elim (Option-cases (find (is_consent id) db.consent_records)) [
  | inl miss ↦ ground arith
  | inr (r, e) ↦ (r, e, ground arith, ground arith)
]

-- Withdrawing some record leaves a row as it is that is another tenant's or withdrawn.
pub withdraw_consent-find :
    (ok : Bool) (now tenant id i : ℕ) (db : Db) (r : ConsentRow)
    → find (is_consent i) db.consent_records ≡ some r
    → (r.tenant_id ≢ tenant) ⊎ (is_some r.withdrawn_at ≡ true)
    → find (is_consent i) (withdraw_consent ok now tenant id db).1.consent_records ≡ some r
unfolding withdraw_consent
withdraw_consent-find ok now tenant id i db r e settled =
    commit-keeps (λ s. find (is_consent i) s.consent_records ≡ some r) _ _ db e
      (λ u passed.
        let (r0, e0, mine, _) = withdrawable_row tenant id db u passed in
        let its_id = find-holds (is_consent i) db.consent_records r e in
        let spared : is_standing id r ≡ false = ground arith in
        ap (find (is_consent i)) (write_audit_event-tables ok _ _).1
        ∙ find-update_where (is_consent i) (is_standing id) (withdrawn now) db.consent_records
            (λ a. refl) r e
        ∙ rw spared refl)

pub create_consent-find :
    (ok : Bool) (now tenant id i : ℕ) (b : ConsentBody) (db : Db) (r : ConsentRow)
    → find (is_consent i) db.consent_records ≡ some r
    → find (is_consent i) (create_consent ok now tenant id b db).1.consent_records ≡ some r
unfolding create_consent
create_consent-find ok now tenant id i b db r e =
    ap (find (is_consent i)) (write_audit_event-tables ok _ _).1
    ∙ find-append_hit (is_consent i) db.consent_records _ r e

-- The caller's own record that is withdrawn already.
spent_record :
    (ok : Bool) (now tenant id : ℕ) (db : Db) (r : ConsentRow)
    → find (is_consent id) db.consent_records ≡ some r
    → r.tenant_id ≡ tenant
    → find (is_standing id) db.consent_records ≡ none
    → withdraw_consent ok now tenant id db ≡ (fail 404 not_standing, db)
unfolding withdraw_consent commit
spent_record ok now tenant id db r found mine gone =
    rw (found, mine) (ground (arith, ==_refl tenant))

-- What a withdrawal finds and leaves.
withdrawn_rows :
    (ok : Bool) (now tenant id : ℕ) (db : Db) (u : ConsentRow)
    → (withdraw_consent ok now tenant id db).0 ≡ send 200 u
    → (r : ConsentRow) × (v : ConsentRow) × (find (is_consent id) db.consent_records ≡ some r)
      × (r.tenant_id ≡ tenant)
      × (u ≡ withdrawn now v)
      × ((withdraw_consent ok now tenant id db).1.consent_records
          ≡ update_where (is_standing id) (withdrawn now) db.consent_records)
unfolding withdraw_consent
withdrawn_rows ok now tenant id db u h =
    let (v, passed, same) = commit-sent (withdrawable tenant id db) _ db 200 u h in
    let (r, found, mine, _) = withdrawable_row tenant id db v passed in
    let sent : (withdraw_consent ok now tenant id db).0 ≡ send 200 (withdrawn now v) =
      ap (λ p. p.0) same in
    (
      r,
      v,
      found,
      mine,
      ground arith,
      ap (λ p. p.1.consent_records) same ∙ (write_audit_event-tables ok _ _).1,
    )

-- Consent is withdrawn once: a withdrawal that is answered with 200 answers the record, no longer
-- granted, and another attempt on it is answered with 404 and changes nothing.
pub withdraw_consent_once :
    (ok ok' : Bool) (now later tenant id : ℕ) (db : Db) (u : ConsentRow)
    → (withdraw_consent ok now tenant id db).0 ≡ send 200 u
    → let db' = (withdraw_consent ok now tenant id db).1 in
      (u.withdrawn_at ≡ some now)
      × (u.granted ≡ false)
      × (withdraw_consent ok' later tenant id db' ≡ (fail 404 not_standing, db'))
withdraw_consent_once ok ok' now later tenant id db u h =
    let (r, v, found, mine, is, rows) = withdrawn_rows ok now tenant id db u h in
    (
      rw is refl,
      rw is refl,
      spent_record ok' later tenant id _ (if is_standing id r then withdrawn now r else r)
          (ap (find (is_consent id)) rows
            ∙ find-update_where (is_consent id) (is_standing id) (withdrawn now) db.consent_records
                (λ a. refl) r found)
          (ground arith)
          (ap (find (is_standing id)) rows
            ∙ find-update_where_gone (is_standing id) (is_standing id) (withdrawn now)
                db.consent_records (λ a e. e) (λ a. ground arith)),
    )
