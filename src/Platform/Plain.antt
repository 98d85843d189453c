-- ===== src/Platform/Plain.antt =====
-- Texts for the platform of whole units: an identifier is written as so many strokes, and a number
-- in decimal digits. It shows that the law of Texts can hold, and the tests run on it.
use aegis_oms_rs.Prelude.{
  ℕ, zero, suc, ◌+◌, ◌-◌, ◌*◌, ◌^◌, ℤ, pos, ◌≡◌, refl, ap, String, Option, none, some, ◌&&◌, leb,
  if◌then◌else◌,
}
use Prim.Native.Char.{code}
use aegis_oms_rs.Platform.{unit}
use aegis_oms_rs.Platform.Text.{Texts}
use aegis_oms_rs.Platform.Whole.{whole}

abbrev strokes : ℕ → String
strokes zero = String.[]
strokes (suc n) = String.◌∷◌ "|" (strokes n)

abbrev counted : String → ℕ
counted String.[] = 0
counted (String.◌∷◌ c s) = suc (counted s)

pub counted-strokes : (n : ℕ) → counted (strokes n) ≡ n
counted-strokes zero = refl
counted-strokes (suc n) = ap suc (counted-strokes n)

-- The number that the digits of a text write after those read so far.
abbrev digits : ℕ → String → Option ℤ
digits n String.[] = some (pos (n * unit))
digits n (String.◌∷◌ c s) =
    let rest = digits (10 * n + (code c - 48)) s in
    if leb 48 (code c) && leb (code c) 57 then rest else none

instance abbrev pub plain : Texts
plain = record {
  ulid_text = strokes;
  ulid_from_string = λ s. some (counted s);
  ulid_error = λ s. s;
  ulid_lem = λ n. ap some (counted-strokes n);
  dec_literal = λ n scale. pos (n * 10 ^ (28 - scale));
  parse_decimal = digits 0;
  to_lowercase = λ s. s;
}
