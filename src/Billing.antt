-- ===== src/Billing.antt =====
-- Invoices: routes/billing.ts of platform/services/tinai-api. Hours come from the usage query rounded
-- to four places, and are counted in ten-thousandths; amounts are paise. The cost of a quantity,
-- which is rounded from a product of floating-point numbers, is a parameter.
pub mod Totals
pub mod Payments
mod Tests
use tinai_infra.Prelude.{
  ℕ, ◌+◌, ◌*◌, ◌/◌, Bool, true, false, not, ◌&&◌, Option, none, some, List, [], ◌∷◌, ◌++◌, map,
  if◌then◌else◌, ◌==◌, ltb, is_some, find, select, update_where, delete_where, Reply, send, fail,
  Check, pass, require, require_row, commit, ◌>>=◌, ◌>>◌,
}

-- A row of the usage query of POST /billing/invoices/generate.
pub record Usage : Type 0 where
  pub app_name : ℕ
  pub cpu_core_hours : ℕ
  pub memory_gb_hours : ℕ

pub data Kind : Type 0 where
  cpu memory : Kind

-- A line item; the description is made of the app, the kind and the quantity.
pub record Line : Type 0 where
  pub app_name : ℕ
  pub kind : Kind
  pub quantity : ℕ
  pub unit_price : ℕ
  pub amount : ℕ

pub record LineRow : Type 0 where
  pub invoice_id : ℕ
  pub line : Line

pub data PaymentStatus : Type 0 where
  pending captured failed : PaymentStatus

-- A row of `invoices`; `is_paid` says whether the status is 'paid'.
pub record Invoice : Type 0 where
  pub id : ℕ
  pub tenant : ℕ
  pub month : ℕ
  pub subtotal_paise : ℕ
  pub gst_paise : ℕ
  pub total_paise : ℕ
  pub is_paid : Bool
  pub razorpay_order_id : Option ℕ
  pub razorpay_payment_id : Option ℕ
  pub payment_status : Option PaymentStatus

pub record Db : Type 0 where
  pub invoices : List Invoice
  pub line_items : List LineRow

-- `CPU_PAISE_PER_CORE_HOUR`
abbrev pub cpu_price : ℕ
cpu_price = 50

-- `MEM_PAISE_PER_GB_HOUR`
abbrev pub memory_price : ℕ
memory_price = 25

-- `Math.round(subtotal * GST_RATE)`: where the exact product ends in a half, so does the floating-point
-- one.
abbrev pub gst_of : ℕ → ℕ
gst_of subtotal = (subtotal * 18 + 50) / 100

-- The line items and the subtotal that the loop carries.
abbrev pub Bill : Type 0
Bill = List Line × ℕ

-- `cost` is `Math.round(hours * price)`.
module _ (cost : (quantity price : ℕ) → ℕ) where
  abbrev pub add_line : (app_name : ℕ) → Kind → (quantity price : ℕ) → Bill → Bill
  add_line app_name kind quantity price (ls, subtotal) =
      if ltb 0 quantity
      then (
        ls
            ++ record {
              app_name = app_name;
              kind = kind;
              quantity = quantity;
              unit_price = price;
              amount = cost quantity price;
            }
              ∷ [],
        subtotal + cost quantity price,
      )
      else (ls, subtotal)

  -- The loop over the usage rows.
  abbrev pub bill : List Usage → Bill → Bill
  bill [] b = b
  bill (u ∷ us) b = bill us (
      add_line u.app_name memory u.memory_gb_hours memory_price
        (add_line u.app_name cpu u.cpu_core_hours cpu_price b))

abbrev pub is_invoice_of : (month tenant : ℕ) → Invoice → Bool
is_invoice_of month tenant i = i.month == month && i.tenant == tenant

abbrev pub by_invoice : ℕ → Invoice → Bool
by_invoice id i = i.id == id

abbrev pub is_line_of : ℕ → LineRow → Bool
is_line_of id l = l.invoice_id == id

abbrev pub with_totals : (subtotal : ℕ) → Invoice → Invoice
with_totals subtotal i = record i {
  subtotal_paise = subtotal;
  gst_paise = gst_of subtotal;
  total_paise = subtotal + gst_of subtotal;
}

abbrev pub new_invoice : (id tenant month subtotal : ℕ) → Invoice
new_invoice id tenant month subtotal = record {
  id = id;
  tenant = tenant;
  month = month;
  subtotal_paise = subtotal;
  gst_paise = gst_of subtotal;
  total_paise = subtotal + gst_of subtotal;
  is_paid = false;
  razorpay_order_id = none;
  razorpay_payment_id = none;
  payment_status = some pending;
}

abbrev pub rows_for : ℕ → List Line → List LineRow
rows_for id [] = []
rows_for id (l ∷ ls) = record { invoice_id = id; line = l } ∷ rows_for id ls

-- The upsert of the invoice and its items, by the invoice that is there.
pub store_bill : Option Invoice → (tenant month new_id : ℕ) → Bill → Db → ℕ × Db
store_bill (some old) tenant month new_id (ls, subtotal) db = (
  old.id,
  record db {
    invoices = update_where (by_invoice old.id) (with_totals subtotal) db.invoices;
    line_items = delete_where (is_line_of old.id) db.line_items ++ rows_for old.id ls;
  },
)
store_bill none tenant month new_id (ls, subtotal) db = (
  new_id,
  record db {
    invoices = db.invoices ++ new_invoice new_id tenant month subtotal ∷ [];
    line_items = db.line_items ++ rows_for new_id ls;
  },
)

module _ (cost : (quantity price : ℕ) → ℕ) where
  -- POST /billing/invoices/generate: the invoice's id, from which the reply is read off.
  unfoldable pub generate : (tenant month new_id : ℕ) → List Usage → Db → ℕ × Db
  unfolding store_bill
  generate tenant month new_id us db =
      store_bill (find (is_invoice_of month tenant) db.invoices) tenant month new_id
        (bill cost us ([], 0)) db

-- The checks of POST /billing/payment-orders; `provider` answers with an order for an amount, and
-- where it fails the handler throws.
unfoldable pub payable :
    (configured : Bool) (provider : ℕ → Option ℕ) (tenant id : ℕ) → Db → Check ℕ
payable configured provider tenant id db = do
  i ← require_row (find (by_invoice id) db.invoices) 404 "invoice not found"
  require (i.tenant == tenant) 403 "Forbidden"
  require configured 500 "Razorpay credentials not configured"
  require_row (provider i.total_paise) 500 "Razorpay error"

-- POST /billing/payment-orders
unfoldable pub order_payment :
    (configured : Bool) (provider : ℕ → Option ℕ) (tenant id : ℕ) → Db → Reply ℕ × Db
order_payment configured provider tenant id db =
    commit (payable configured provider tenant id db)
      (λ order db. (
        send 200 order,
        record db {
          invoices =
              update_where (by_invoice id)
                (λ i. record i { razorpay_order_id = some order; payment_status = some pending })
                db.invoices;
        },
      ))
      db

abbrev pub has_order : ℕ → Invoice → Bool
has_order order i = elim i.razorpay_order_id [ none ↦ false | some o ↦ o == order ]

-- The event of the body; a payment without an order is `other_event`.
pub data PaymentEvent : Type 0 where
  payment_captured : ℕ → Option ℕ → PaymentEvent
  payment_failed : ℕ → PaymentEvent
  other_event : PaymentEvent

abbrev pub paid_by : Option ℕ → Invoice → Invoice
paid_by payment i = record i {
  is_paid = true;
  payment_status = some captured;
  razorpay_payment_id = payment;
}

abbrev pub settle : PaymentEvent → Db → Db
settle (payment_captured order payment) db = record db {
  invoices = update_where (has_order order) (paid_by payment) db.invoices;
}
settle (payment_failed order) db = record db {
  invoices =
      update_where (has_order order) (λ i. record i { payment_status = some failed }) db.invoices;
}
settle other_event db = db

-- POST /billing/webhooks/razorpay. `expected` is the body's signature under the configured secret;
-- a signature of another length, which is none, makes `timingSafeEqual` throw.
unfoldable pub webhook :
    (expected : Option ℕ) (signature : Option ℕ) → PaymentEvent → Db → Reply (Unit {0}) × Db
webhook expected signature event db =
    commit
      (do
        e ← require_row expected 500 "webhook secret not configured"
        s ← require_row signature 500 "Input buffers must have the same byte length"
        require (s == e) 400 "invalid signature")
      (λ _ db. (send 200 tt, settle event db)) db
