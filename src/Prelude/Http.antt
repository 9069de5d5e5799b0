-- ===== src/Prelude/Http.antt =====
-- What a route handler sends, and the checks that a handler makes before it writes: a chain of
-- early returns is a `do` block of checks, and the writes that follow it are the body of `commit`.
use Prim.Native.Nat.{ℕ}
use Prim.Native.String.{String}
use mathlib.Core.Path.{◌≡◌, refl}
use mathlib.Core.Bool.{Bool, true, false}
use mathlib.Core.Option.{Option, none, some}
use native.Mathlib.Omega.{arith}

-- A status with a body, or a status with an error text.
pub data Reply {ℓ} (A : Type ℓ) : Type ℓ where
  send : ℕ → A → Reply A
  fail : ℕ → String → Reply A

abbrev pub status {ℓ} : {A : Type ℓ} → Reply A → ℕ
status (send n _) = n
status (fail n _) = n

pub data Check {ℓ} (A : Type ℓ) : Type ℓ where
  pass : A → Check A
  reject : ℕ → String → Check A

infixl 5 ◌>>=◌ ◌>>◌
abbrev pub ◌>>=◌ {ℓ κ} : {A : Type ℓ} {B : Type κ} → Check A → (A → Check B) → Check B
pass a >>= f = f a
reject n e >>= f = reject n e

abbrev pub ◌>>◌ {ℓ} : {B : Type ℓ} → Check (Unit {0}) → Check B → Check B
m >> k = m >>= λ _. k

-- `if (!test) return reply.status(n).send({ error })`
abbrev pub require : Bool → ℕ → String → Check (Unit {0})
require true n e = pass tt
require false n e = reject n e

-- `if (!rows.length) return reply.status(n).send({ error })`
abbrev pub require_row {ℓ} : {A : Type ℓ} → Option A → ℕ → String → Check A
require_row (some a) n e = pass a
require_row none n e = reject n e

-- A handler: nothing is written unless the checks pass.
unfoldable pub commit {ℓ κ μ} :
    {A : Type ℓ} {B : Type κ} {S : Type μ} → Check A → (A → S → Reply B × S) → S → Reply B × S
commit (pass a) body s = body a s
commit (reject n e) body s = (fail n e, s)

-- What holds before a handler, and is kept by its writes when the checks pass, holds after it.
pub commit-keeps {ℓ κ μ ν} :
    {A : Type ℓ} {B : Type κ} {S : Type μ} (P : S → Type ν) (c : Check A)
    (body : A → S → Reply B × S) (s : S)
    → P s
    → ((a : A) → c ≡ pass a → P (body a s).1)
    → P (commit c body s).1
unfolding commit
commit-keeps P (pass a) body s h k = k a refl
commit-keeps P (reject n e) body s h k = h

-- The other way round: what holds after a handler held before, or the checks passed.
pub commit-back {ℓ κ μ ν} :
    {A : Type ℓ} {B : Type κ} {S : Type μ} (P : S → Type ν) (c : Check A)
    (body : A → S → Reply B × S) (s : S)
    → P (commit c body s).1
    → ((a : A) → c ≡ pass a → P (body a s).1 → P s)
    → P s
unfolding commit
commit-back P (pass a) body s h k = k a refl h
commit-back P (reject n e) body s h k = h

-- A handler that sends a body has passed its checks.
pub commit-sent {ℓ κ μ} :
    {A : Type ℓ} {B : Type κ} {S : Type μ} (c : Check A) (body : A → S → Reply B × S) (s : S)
    (n : ℕ) (b : B)
    → (commit c body s).0 ≡ send n b
    → (a : A) × (c ≡ pass a) × (commit c body s ≡ body a s)
unfolding commit
commit-sent (pass a) body s n b h = (a, refl, refl)
commit-sent (reject m e) body s n b h = ground arith
