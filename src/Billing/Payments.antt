-- ===== src/Billing/Payments.antt =====
-- What a captured payment does to an invoice.
use tinai_infra.Prelude.{
  ℕ, ◌+◌, ◌≡◌, refl, ◌∙◌, Option, some, true, List, [], select, arith, ==_refl, find,
  find-update_where, commit,
}
use tinai_infra.Billing.Totals.{sum, generate-Agrees}
use tinai_infra.Billing.{
  gst_of, is_line_of, Usage, Invoice, Db, bill, is_invoice_of, by_invoice, has_order, paid_by,
  with_totals, generate, webhook, payment_captured,
}

module _ (cost : (quantity price : ℕ) → ℕ) where
  -- The invoice of a month after it is generated again.
  generate-find :
      (tenant month new_id : ℕ) (us : List Usage) (db : Db) (i : Invoice)
      → find (is_invoice_of month tenant) db.invoices ≡ some i
      → find (is_invoice_of month tenant) (generate cost tenant month new_id us db).1.invoices
        ≡ some (with_totals (bill cost us ([], 0)).1 i)
  unfolding generate
  generate-find tenant month new_id us db i e = rw e (
      find-update_where (is_invoice_of month tenant) (by_invoice i.id)
        (with_totals (bill cost us ([], 0)).1) db.invoices (λ a. refl) i e
      ∙ rw (==_refl i.id) refl)

captured-find :
    (secret order tenant month : ℕ) (payment : Option ℕ) (db : Db) (i : Invoice)
    → find (is_invoice_of month tenant) db.invoices ≡ some i
    → i.razorpay_order_id ≡ some order
    → find
        (is_invoice_of month tenant)
        (webhook (some secret) (some secret) (payment_captured order payment) db).1.invoices
      ≡ some (paid_by payment i)
unfolding webhook commit
captured-find secret order tenant month payment db i e ordered = rw (==_refl secret) (
    find-update_where (is_invoice_of month tenant) (has_order order) (paid_by payment) db.invoices
      (λ a. refl) i e
    ∙ ground (arith, ==_refl order))

module _ (cost : (quantity price : ℕ) → ℕ) where
  -- An invoice that is generated again between its payment order and the signed webhook of the capture
  -- is paid, with the payment's id, at the new totals: its subtotal is the sum of the items that the
  -- generation wrote for it, and its total is that with the tax, whatever amount the order was over.
  pub paid_after_generate :
      (tenant month new_id secret order : ℕ) (payment : Option ℕ) (us : List Usage) (db : Db)
      (i : Invoice)
      → select (is_line_of new_id) db.line_items ≡ []
      → find (is_invoice_of month tenant) db.invoices ≡ some i
      → i.razorpay_order_id ≡ some order
      → let (id, db') = generate cost tenant month new_id us db in
        (j : Invoice) × (find
            (is_invoice_of month tenant)
            (webhook (some secret) (some secret) (payment_captured order payment) db').1.invoices
          ≡ some j)
        × (j.id ≡ id)
        × (j.is_paid ≡ true)
        × (j.razorpay_payment_id ≡ payment)
        × (j.subtotal_paise ≡ sum (select (is_line_of id) db'.line_items))
        × (j.total_paise ≡ j.subtotal_paise + gst_of j.subtotal_paise)
  paid_after_generate tenant month new_id secret order payment us db i fresh e ordered =
      let (id, db') = generate cost tenant month new_id us db in
      let (k, found, same, sums, total) = generate-Agrees cost tenant month new_id us db fresh in
      let again = generate-find cost tenant month new_id us db i e in
      let order_kept : k.razorpay_order_id ≡ some order = ground (arith, found, again, ordered) in
      (
        paid_by payment k,
        captured-find secret order tenant month payment db' k found order_kept,
        same,
        refl,
        refl,
        sums,
        total,
      )
