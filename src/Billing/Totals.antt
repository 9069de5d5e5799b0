-- ===== src/Billing/Totals.antt =====
-- The sums on an invoice.
use tinai_infra.Prelude.{
  ℕ, ◌+◌, ◌≡◌, refl, ◌∙◌, sym, ap, inl, inr, some, List, [], ◌∷◌, ◌++◌, arith, ==_refl, ltb, find,
  select, delete_where, Bool-cases, Option-cases, find-update_where, find-append_miss,
}
use tinai_infra.Billing.{
  Usage, Kind, Line, LineRow, Invoice, Db, Bill, add_line, bill, gst_of, is_invoice_of, by_invoice,
  is_line_of, with_totals, new_invoice, rows_for, generate, cpu, memory, cpu_price, memory_price,
}

-- The sum of the items of an invoice.
abbrev pub sum : List LineRow → ℕ
sum [] = 0
sum (r ∷ rs) = r.line.amount + sum rs

abbrev sum_lines : List Line → ℕ
sum_lines [] = 0
sum_lines (l ∷ ls) = l.amount + sum_lines ls

sum_lines-append : (ls : List Line) (l : Line) → sum_lines (ls ++ l ∷ []) ≡ sum_lines ls + l.amount
sum_lines-append [] l = omega arith
sum_lines-append (k ∷ ls) l = rw (sum_lines-append ls l) (omega arith)

-- The subtotal that the loop carries is the sum of its items.
abbrev IsBalanced : Bill → Type 0
IsBalanced (ls, subtotal) = subtotal ≡ sum_lines ls

module _ (cost : (quantity price : ℕ) → ℕ) where
  add_line-IsBalanced :
      (app_name : ℕ) (kind : Kind) (quantity price : ℕ) (b : Bill)
      → IsBalanced b
      → IsBalanced (add_line cost app_name kind quantity price b)
  add_line-IsBalanced app_name kind quantity price (ls, subtotal) h =
      elim (Bool-cases (ltb 0 quantity)) [
        | inl some_use ↦ rw some_use (sym (sum_lines-append ls _ ∙ rw h refl))
        | inr unused ↦ rw unused h
      ]

  bill-IsBalanced : (us : List Usage) (b : Bill) → IsBalanced b → IsBalanced (bill cost us b)
  bill-IsBalanced [] b h = h
  bill-IsBalanced (u ∷ us) b h = bill-IsBalanced us _ (
      add_line-IsBalanced u.app_name memory u.memory_gb_hours memory_price _
        (add_line-IsBalanced u.app_name cpu u.cpu_core_hours cpu_price b h))

sum-rows_for :
    (id : ℕ) (ls : List Line) → sum (select (is_line_of id) (rows_for id ls)) ≡ sum_lines ls
sum-rows_for id [] = refl
sum-rows_for id (l ∷ ls) = rw (==_refl id) (rw (sum-rows_for id ls) refl)

select-append_empty :
    (id : ℕ) (rs qs : List LineRow)
    → select (is_line_of id) rs ≡ []
    → select (is_line_of id) (rs ++ qs) ≡ select (is_line_of id) qs
select-append_empty id [] qs h = refl
select-append_empty id (r ∷ rs) qs h = ground (arith, select-append_empty id rs qs)

select-delete_where :
    (id : ℕ) (rs : List LineRow) → select (is_line_of id) (delete_where (is_line_of id) rs) ≡ []
select-delete_where id [] = refl
select-delete_where id (r ∷ rs) = ground (arith, select-delete_where id rs)

-- The invoice and its items agree.
abbrev pub Agrees : (id tenant month : ℕ) → Db → Type 0
Agrees id tenant month db =
    (i : Invoice) × (find (is_invoice_of month tenant) db.invoices ≡ some i)
    × (i.id ≡ id)
    × (i.subtotal_paise ≡ sum (select (is_line_of id) db.line_items))
    × (i.total_paise ≡ i.subtotal_paise + gst_of i.subtotal_paise)

module _ (cost : (quantity price : ℕ) → ℕ) where
  -- An invoice that is generated, or generated again, is the one of the tenant and the month; its
  -- subtotal is the sum of the items that stand for it and its total is that with the tax, where the id
  -- of a new invoice has no items yet.
  pub generate-Agrees :
      (tenant month new_id : ℕ) (us : List Usage) (db : Db)
      → select (is_line_of new_id) db.line_items ≡ []
      → let (id, db') = generate cost tenant month new_id us db in Agrees id tenant month db'
  unfolding generate
  generate-Agrees tenant month new_id us db fresh =
      let (ls, subtotal) = bill cost us ([], 0) in
      let balanced : subtotal ≡ sum_lines ls = bill-IsBalanced cost us ([], 0) refl in
      elim (Option-cases (find (is_invoice_of month tenant) db.invoices)) [
        | inl miss ↦ rw miss (
          new_invoice new_id tenant month subtotal,
          find-append_miss (is_invoice_of month tenant) db.invoices _ miss
              ∙ ground (arith, ==_refl month, ==_refl tenant),
          refl,
          balanced
              ∙ sym (
                  ap sum (select-append_empty new_id db.line_items (rows_for new_id ls) fresh)
                  ∙ sum-rows_for new_id ls),
          refl,
        )
        | inr (old, e) ↦ rw e (
          with_totals subtotal old,
          find-update_where (is_invoice_of month tenant) (by_invoice old.id) (with_totals subtotal)
                db.invoices (λ a. refl) old e
              ∙ rw (==_refl old.id) refl,
          refl,
          balanced
              ∙ sym (
                  ap sum (
                    select-append_empty old.id (delete_where (is_line_of old.id) db.line_items)
                      (rows_for old.id ls) (select-delete_where old.id db.line_items))
                  ∙ sum-rows_for old.id ls),
          refl,
        )
      ]
