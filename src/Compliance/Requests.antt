-- ===== src/Compliance/Requests.antt =====
-- The requests that change the compliance records, as one step.
pub mod Frames
pub mod Isolation
pub mod Audit
use tinai_infra.Prelude.{ℕ, String, Bool, Reply, send, fail}
use tinai_infra.Compliance.{ErasureRequest, ConsentRow, Db}
use tinai_infra.Compliance.Erasure.{CreateErasureBody, create_erasure, complete_erasure}
use tinai_infra.Compliance.Consent.{ConsentBody, create_consent, withdraw_consent}
use tinai_infra.Compliance.Breach.{
  CreateBreachBody, BreachComputed, create_breach, notify_regulator, resolve_breach,
}

pub data Request : Type 0 where
  request_erasure : CreateErasureBody → Request
  complete : ℕ → Request
  record_consent : ConsentBody → Request
  withdraw : ℕ → Request
  report_breach : String → CreateBreachBody → Request
  notify : ℕ → Request
  resolve : ℕ → Request

pub data Body : Type 0 where
  erasure : ErasureRequest → Body
  consent : ConsentRow → Body
  breach : BreachComputed → Body

abbrev pub wrap {ℓ} : {A : Type ℓ} → (A → Body) → Reply A × Db → Reply Body × Db
wrap f (send n a, db) = (send n (f a), db)
wrap f (fail n e, db) = (fail n e, db)

-- One request of a tenant; `id` is the id that a new row gets.
unfoldable pub handle : (ok : Bool) (now tenant id : ℕ) → Request → Db → Reply Body × Db
handle ok now tenant id (request_erasure b) db = wrap erasure (create_erasure ok now tenant id b db)
handle ok now tenant id (complete i) db = wrap erasure (complete_erasure ok now tenant i db)
handle ok now tenant id (record_consent b) db = wrap consent (create_consent ok now tenant id b db)
handle ok now tenant id (withdraw i) db = wrap consent (withdraw_consent ok now tenant i db)
handle ok now tenant id (report_breach d b) db = wrap breach (create_breach ok now tenant id d b db)
handle ok now tenant id (notify i) db = wrap breach (notify_regulator ok now tenant i db)
handle ok now tenant id (resolve i) db = wrap breach (resolve_breach ok now tenant i db)
