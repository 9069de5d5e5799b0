-- ===== src/Compliance/Tests.antt =====
-- Compliance requests on concrete inputs: tenants 8 and 9.
use tinai_infra.Prelude.{
  ◌≡◌, ◌⊎◌, refl, inl, true, false, none, some, [], ◌∷◌, arith, find, fail, commit,
}
use tinai_infra.Compliance.{
  pending, detected, notified, ErasureRequest, ConsentRow, BreachIncident, Db,
}
use tinai_infra.Compliance.Erasure.{complete_erasure, is_erasure, not_open, done_at}
use tinai_infra.Compliance.Erasure.Lifecycle.{complete_erasure_once}
use tinai_infra.Compliance.Consent.{withdraw_consent, is_consent, not_standing, withdrawn}
use tinai_infra.Compliance.Consent.Lifecycle.{withdraw_consent_once}
use tinai_infra.Compliance.Breach.{
  is_breach, resolved, resolve_breach, notify_regulator, compute_breach_fields,
}
use tinai_infra.Compliance.Breach.Lifecycle.{notify_after_resolve}
use tinai_infra.Compliance.Requests.{withdraw, complete, notify, handle}
use tinai_infra.Compliance.Requests.Isolation.{
  handle-erasure_kept, handle-consent_kept, handle-breach_kept,
}
use tinai_infra.Compliance.Requests.Audit.{
  Refused, Logged, handle-Logged, SameButLog, handle-SameButLog,
}

abbrev request : ErasureRequest
request = record {
  id = 1;
  tenant_id = 8;
  requester_email = 50;
  data_categories = [];
  full_erasure = true;
  status = pending;
  requested_at = 100;
  completed_at = none;
  sla_deadline = 2_592_000_100;
}

abbrev consent : ConsentRow
consent = record {
  id = 2;
  tenant_id = 8;
  purpose = 4;
  legal_basis = 5;
  granted = true;
  ip_address = none;
  user_agent = none;
  notice_version = "1.0";
  region = "IN";
  granted_at = 100;
  withdrawn_at = none;
}

abbrev incident : BreachIncident
incident = record {
  id = 3;
  tenant_id = some 8;
  region = "IN";
  detected_at = 100;
  description = none;
  affected_categories = [];
  affected_records = 12;
  status = detected;
  notification_draft = "draft";
  regulator_notified_at = none;
  principals_notified_at = none;
  resolved_at = none;
}

abbrev store : Db
store = record {
  erasure_requests = request ∷ [];
  consent_records = consent ∷ [];
  breach_incidents = incident ∷ [];
  audit_events = [];
}

complete_erasure_once_test :
    ((done_at 200 request).completed_at ≡ some 200)
    × (complete_erasure true 300 8 1 (complete_erasure true 200 8 1 store).1
        ≡ (fail 404 not_open, (complete_erasure true 200 8 1 store).1))
unfolding complete_erasure commit
complete_erasure_once_test =
    complete_erasure_once true true 200 300 8 1 store (done_at 200 request) refl

withdraw_consent_once_test :
    ((withdrawn 200 consent).withdrawn_at ≡ some 200)
    × ((withdrawn 200 consent).granted ≡ false)
    × (withdraw_consent true 300 8 2 (withdraw_consent true 200 8 2 store).1
        ≡ (fail 404 not_standing, (withdraw_consent true 200 8 2 store).1))
unfolding withdraw_consent commit
withdraw_consent_once_test =
    withdraw_consent_once true true 200 300 8 2 store (withdrawn 200 consent) refl

-- An hour after the detection, 71 hours are left.
seventy_one_hours : (compute_breach_fields 3_600_100 incident).ms_remaining ≡ 255_600_000
unfolding compute_breach_fields
seventy_one_hours = refl

notify_after_resolve_test :
    let db' = (resolve_breach true 200 8 3 store).1 in
    (find (is_breach 3) db'.breach_incidents ≡ some (resolved 200 incident))
    × (find (is_breach 3) (notify_regulator true 300 8 3 db').1.breach_incidents
        ≡ some (record incident {
          resolved_at = some 200;
          regulator_notified_at = some 300;
          status = notified;
        }))
notify_after_resolve_test = notify_after_resolve true true 200 300 8 3 store incident refl refl

handle-erasure_kept_example :
    find (is_erasure 1) (handle true 200 9 7 (complete 1) store).1.erasure_requests ≡ some request
handle-erasure_kept_example =
    handle-erasure_kept true 200 9 7 (complete 1) store 1 request refl (inl (omega arith))

handle-consent_kept_test :
    find (is_consent 2) (handle true 200 9 7 (withdraw 2) store).1.consent_records ≡ some consent
handle-consent_kept_test =
    handle-consent_kept true 200 9 7 (withdraw 2) store 2 consent refl (inl (omega arith))

handle-breach_kept_example :
    find (is_breach 3) (handle true 200 9 7 (notify 3) store).1.breach_incidents ≡ some incident
handle-breach_kept_example = handle-breach_kept true 200 9 7 (notify 3) store 3 incident refl refl

handle-Logged_example :
    Refused store (handle true 200 8 7 (complete 1) store)
    ⊎ Logged store (handle true 200 8 7 (complete 1) store)
handle-Logged_example = handle-Logged 200 8 7 (complete 1) store

handle-SameButLog_test :
    SameButLog (handle false 200 8 7 (complete 1) store) (handle true 200 8 7 (complete 1) store)
handle-SameButLog_test = handle-SameButLog 200 8 7 (complete 1) store
