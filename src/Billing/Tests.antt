-- ===== src/Billing/Tests.antt =====
-- An invoice on concrete inputs: ten core hours and two gigabyte hours of one app.
use tinai_infra.Prelude.{◌≡◌, refl, List, [], ◌∷◌, none, some, true, commit, status}
use tinai_infra.Prelude.{ℕ, ◌+◌, ◌*◌, ◌/◌, find, select}
use tinai_infra.Billing.Payments.{paid_after_generate}
use tinai_infra.Billing.{
  gst_of, is_line_of, Usage, Db, Invoice, with_totals, bill, is_invoice_of, new_invoice, generate,
  order_payment, payable, webhook, payment_captured,
}
use tinai_infra.Billing.Totals.{sum, Agrees, generate-Agrees}

abbrev usage : List Usage
usage = record { app_name = 1; cpu_core_hours = 100_000; memory_gb_hours = 20_000 } ∷ []

-- Rounds a half up.
abbrev cost : (quantity price : ℕ) → ℕ
cost quantity price = (quantity * price + 5_000) / 10_000

abbrev empty : Db
empty = record { invoices = []; line_items = [] }

generate-Agrees_example : let (id, db') = generate cost 8 6 1 usage empty in Agrees id 8 6 db'
generate-Agrees_example = generate-Agrees cost 8 6 1 usage empty refl

-- A draft whose payment order 55 is over the total of an earlier day.
abbrev ordered : Invoice
ordered = record (new_invoice 1 8 6 100) { razorpay_order_id = some 55 }

abbrev store : Db
store = record { invoices = ordered ∷ []; line_items = [] }

-- 118 paise were ordered, and the invoice is now over 649.
totals_differ :
    (ordered.total_paise ≡ 118)
    × ((with_totals (bill cost usage ([], 0)).1 ordered).total_paise ≡ 649)
totals_differ = (refl, refl)

paid_after_generate_example :
    let (id, db') = generate cost 8 6 2 usage store in
    (j : Invoice) × (find
        (is_invoice_of 6 8)
        (webhook (some 3) (some 3) (payment_captured 55 (some 70)) db').1.invoices
      ≡ some j)
    × (j.id ≡ id)
    × (j.is_paid ≡ true)
    × (j.razorpay_payment_id ≡ some 70)
    × (j.subtotal_paise ≡ sum (select (is_line_of id) db'.line_items))
    × (j.total_paise ≡ j.subtotal_paise + gst_of j.subtotal_paise)
paid_after_generate_example =
    paid_after_generate cost 8 6 2 3 55 (some 70) usage store ordered refl refl refl

-- Another tenant's invoice is not ordered, and a signature of the wrong length is a 500.
refusals :
    (status (order_payment true (λ a. some a) 9 1 store).0 ≡ 403)
    × (status (webhook (some 3) none (payment_captured 55 (some 70)) store).0 ≡ 500)
unfolding order_payment payable webhook commit
refusals = (refl, refl)
