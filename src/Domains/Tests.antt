-- ===== src/Domains/Tests.antt =====
-- Domains on a cluster that is a table of Ingresses. App 1 is tenant 5's.
use tinai_infra.Prelude.{
  ℕ, ◌+◌, ◌≡◌, refl, Bool, true, false, Option, none, some, List, [], ◌∷◌, arith, if◌then◌else◌,
  ◌==◌, ==_refl, is_some, ◌≢◌, fail, commit,
}
use tinai_infra.Domains.{
  Domain, Api, World, Request, add, delete, verify, add_domain, verify_domain, delete_domain, run,
  handle,
}
use tinai_infra.Domains.Rows.{IsUnique}
use tinai_infra.Domains.Verified.{AllProven, run-AllProven, advertised_refused}
use tinai_infra.Domains.Routed.{Answers, AllServed, run-AllServed}

abbrev Ingresses : Type 0
Ingresses = ℕ → Option (List ℕ)

abbrev put : ℕ → List ℕ → Ingresses → Ingresses
put app hosts k n = if n == app then some hosts else k n

-- A cluster that refuses what is missing, is there already, or would have no rule.
abbrev write_rules : ℕ → List ℕ → Ingresses → Bool × Ingresses
write_rules app [] k = (false, k)
write_rules app (h ∷ hosts) k = (true, put app (h ∷ hosts) k)

abbrev replace_if : Bool → ℕ → List ℕ → Ingresses → Bool × Ingresses
replace_if true app hosts k = write_rules app hosts k
replace_if false app hosts k = (false, k)

abbrev create_if : Bool → ℕ → List ℕ → Ingresses → Bool × Ingresses
create_if true app hosts k = (false, k)
create_if false app hosts k = write_rules app hosts k

abbrev ingresses : Api Ingresses
ingresses = record {
  read = λ app k. k app;
  replace = λ app hosts k. replace_if (is_some (k app)) app hosts k;
  create = λ app hosts k. create_if (is_some (k app)) app hosts k;
}

write_rules-taken :
    (app : ℕ) (hosts : List ℕ) (k : Ingresses)
    → (write_rules app hosts k).0 ≡ true
    → (write_rules app hosts k).1 app ≡ some hosts
write_rules-taken app [] k e = ground arith
write_rules-taken app (h ∷ hosts) k e = rw (==_refl app) refl

write_rules-refused :
    (app : ℕ) (hosts : List ℕ) (k : Ingresses)
    → (write_rules app hosts k).0 ≡ false
    → (write_rules app hosts k).1 app ≡ k app
write_rules-refused app [] k e = refl
write_rules-refused app (h ∷ hosts) k e = ground arith

write_rules-apart :
    (app n : ℕ) (hosts : List ℕ) (k : Ingresses) → n ≢ app → (write_rules app hosts k).1 n ≡ k n
write_rules-apart app n [] k ne = refl
write_rules-apart app n (h ∷ hosts) k ne = ground arith

replace_if-taken :
    (b : Bool) (app : ℕ) (hosts : List ℕ) (k : Ingresses)
    → (replace_if b app hosts k).0 ≡ true
    → (replace_if b app hosts k).1 app ≡ some hosts
replace_if-taken true app hosts k e = write_rules-taken app hosts k e
replace_if-taken false app hosts k e = ground arith

replace_if-refused :
    (b : Bool) (app : ℕ) (hosts : List ℕ) (k : Ingresses)
    → (replace_if b app hosts k).0 ≡ false
    → (replace_if b app hosts k).1 app ≡ k app
replace_if-refused true app hosts k e = write_rules-refused app hosts k e
replace_if-refused false app hosts k e = refl

replace_if-apart :
    (b : Bool) (app n : ℕ) (hosts : List ℕ) (k : Ingresses)
    → n ≢ app
    → (replace_if b app hosts k).1 n ≡ k n
replace_if-apart true app n hosts k ne = write_rules-apart app n hosts k ne
replace_if-apart false app n hosts k ne = refl

create_if-taken :
    (b : Bool) (app : ℕ) (hosts : List ℕ) (k : Ingresses)
    → (create_if b app hosts k).0 ≡ true
    → (create_if b app hosts k).1 app ≡ some hosts
create_if-taken true app hosts k e = ground arith
create_if-taken false app hosts k e = write_rules-taken app hosts k e

create_if-apart :
    (b : Bool) (app n : ℕ) (hosts : List ℕ) (k : Ingresses)
    → n ≢ app
    → (create_if b app hosts k).1 n ≡ k n
create_if-apart true app n hosts k ne = refl
create_if-apart false app n hosts k ne = write_rules-apart app n hosts k ne

ingresses-Answers : Answers ingresses
ingresses-Answers = record {
  replaced = λ app hosts k. replace_if-taken (is_some (k app)) app hosts k;
  not_replaced = λ app hosts k. replace_if-refused (is_some (k app)) app hosts k;
  created = λ app hosts k. create_if-taken (is_some (k app)) app hosts k;
  replaced_apart = λ app other hosts k. replace_if-apart (is_some (k app)) app other hosts k;
  created_apart = λ app other hosts k. create_if-apart (is_some (k app)) app other hosts k;
}

-- Texts are numbers, and `tinai-verify=` adds a thousand.
abbrev expected : ℕ → ℕ
expected token = token + 1000

abbrev world : World Ingresses
world = record { apps = record { name = 1; owner = 5 } ∷ []; domains = []; cluster = λ n. none }

abbrev requests : List (ℕ × Request)
requests =
    (5, add 1 70 33)
    ∷ (5, add 1 71 34)
    ∷ (6, add 1 72 35)
    ∷ (5, verify 1 70 (33 ∷ []))
    ∷ (5, verify 1 71 (9 ∷ 1034 ∷ []))
    ∷ (5, delete 1 70)
    ∷ []

abbrev hosts_of : Option (List ℕ) → List ℕ
hosts_of none = []
hosts_of (some hosts) = hosts

abbrev verified_of : List Domain → List Bool
verified_of [] = []
verified_of (d ∷ ds) = d.verified ∷ verified_of ds

-- The second domain is verified and served, the first one is neither.
outcome :
    (hosts_of ((run ingresses expected requests world).cluster 1) ≡ 71 ∷ [])
    × (verified_of (run ingresses expected requests world).domains ≡ true ∷ [])
unfolding run handle add_domain verify_domain delete_domain commit
outcome = (refl, refl)

run-AllProven_example :
    IsUnique (run ingresses expected requests world).domains
    × AllProven expected requests (run ingresses expected requests world).domains
run-AllProven_example = run-AllProven ingresses expected requests world tt tt

advertised_refused_example :
    (verify_domain ingresses expected 5 1 70
      (33 ∷ [])
      (add_domain ingresses expected 5 1 70 33 world).1).0
    ≡ fail 400 "DNS TXT record not found"
unfolding add_domain commit
advertised_refused_example =
    advertised_refused ingresses expected 5 1 70 33 world
      (record { domain = 70; verified = false; verify_txt_value = 33 }) (λ t e. ground arith) refl

run-AllServed_example :
    AllServed ingresses expected ingresses-Answers (run ingresses expected requests world)
unfolding handle add_domain commit
run-AllServed_example =
    run-AllServed ingresses expected ingresses-Answers requests world
      (λ _. refl, (λ _. refl, (λ e. ground arith, (tt, (tt, (tt, tt)))))) tt
