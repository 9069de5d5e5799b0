-- ===== src/Flags/Scalars.antt =====
-- The values of flags and contexts, with JavaScript's tests and conversions.
-- A text is the list of its code points.
use tinai_infra.Prelude.{
  ℕ, zero, suc, ◌+◌, ◌/◌, ◌%◌, Bool, true, false, not, ◌&&◌, ◌||◌, List, [], ◌∷◌, if◌then◌else◌,
  ◌==◌, ltb, ◌≡◌, refl, arith,
}

abbrev pub Text : Type 0
Text = List ℕ

-- A JSON scalar, or an object, a function or an array, of which the code sees whether it is the same
-- one and what it is as a text.
pub data Value : Type 0 where
  undef null : Value
  bool : Bool → Value
  num : ℕ → Value
  str : Text → Value
  object : (identity : ℕ) → (text : Text) → Value

abbrev pub text_eq : Text → Text → Bool
text_eq [] [] = true
text_eq (a ∷ s) (b ∷ t) = (a == b) && text_eq s t
text_eq _ _ = false

abbrev pub is_empty : Text → Bool
is_empty [] = true
is_empty (c ∷ cs) = false

abbrev pub is_truthy : Value → Bool
is_truthy undef = false
is_truthy null = false
is_truthy (bool b) = b
is_truthy (num n) = not (n == 0)
is_truthy (str s) = not (is_empty s)
is_truthy (object i s) = true

abbrev bool_eq : Bool → Bool → Bool
bool_eq true b = b
bool_eq false b = not b

-- `===`
abbrev pub same_value : Value → Value → Bool
same_value undef undef = true
same_value null null = true
same_value (bool a) (bool b) = bool_eq a b
same_value (num m) (num n) = m == n
same_value (str s) (str t) = text_eq s t
same_value (object i s) (object j t) = i == j
same_value _ _ = false

-- The decimal digits of a number, most significant first; a number below 2 ^ fuel is spelled whole.
decimal_from : ℕ → ℕ → Text → Text
decimal_from zero n acc = acc
decimal_from (suc fuel) n acc =
    let acc' = (b'0' + n % 10) ∷ acc in
    let rest = decimal_from fuel (n / 10) acc' in if ltb n 10 then acc' else rest

pub decimal : ℕ → Text
unfolding decimal_from
decimal n = decimal_from (suc n) n []

-- `String(v)`
unfoldable pub to_text : Value → Text
unfolding decimal
to_text undef = b'u' ∷ b'n' ∷ b'd' ∷ b'e' ∷ b'f' ∷ b'i' ∷ b'n' ∷ b'e' ∷ b'd' ∷ []
to_text null = b'n' ∷ b'u' ∷ b'l' ∷ b'l' ∷ []
to_text (bool true) = b't' ∷ b'r' ∷ b'u' ∷ b'e' ∷ []
to_text (bool false) = b'f' ∷ b'a' ∷ b'l' ∷ b's' ∷ b'e' ∷ []
to_text (num n) = decimal n
to_text (str s) = s
to_text (object i s) = s

abbrev pub starts_with : Text → Text → Bool
starts_with [] s = true
starts_with (c ∷ cs) [] = false
starts_with (c ∷ cs) (d ∷ ds) = (c == d) && starts_with cs ds

-- `s.includes(t)`, the text sought first
unfoldable pub includes : Text → Text → Bool
includes t [] = is_empty t
includes t (c ∷ s) = starts_with t (c ∷ s) || includes t s

pub text_eq_refl : (s : Text) → text_eq s s ≡ true
text_eq_refl [] = refl
text_eq_refl (c ∷ s) = ground (arith, text_eq_refl s)

pub text_eq_sound : (s t : Text) → text_eq s t ≡ true → s ≡ t
text_eq_sound [] [] h = refl
text_eq_sound [] (b ∷ t) h = ground arith
text_eq_sound (a ∷ s) [] h = ground arith
text_eq_sound (a ∷ s) (b ∷ t) h = ground (arith, text_eq_sound s t)
