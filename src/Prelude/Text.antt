-- ===== src/Prelude/Text.antt =====
-- JavaScript texts: a native `String` is the sequence of code points, `length` counts UTF-16 units.
use Prim.Native.Nat.{ℕ, zero, suc, ◌+◌, ◌/◌, ◌%◌, ◌^◌, ◌≤◌, ◌<◌}
use Prim.Native.Char.{code}
use Prim.Native.String.{String, [], ◌∷◌, ◌++◌}
use mathlib.Core.Path.{◌≡◌, refl}
use mathlib.Core.List
use mathlib.Core.List.{List}
use mathlib.Core.Logic.{inl, inr}
use native.Mathlib.Nat.{pow-suc}
use native.Mathlib.Omega.{arith}
use text.Mathlib.TextLemmas.{nil-append, cons-append}
use claude_code_telegram_kit.Prelude.Tests.{ltb, if◌then◌else◌, Bool-cases, lt→ltb}

abbrev units : ℕ → ℕ
units c = if ltb c 0x10000 then 1 else 2

-- `text.length`
unfoldable pub utf16_length : String → ℕ
utf16_length [] = 0
utf16_length (c ∷ s) = units (code c) + utf16_length s

pub utf16_length-append : (s t : String) → utf16_length (s ++ t) ≡ utf16_length s + utf16_length t
unfolding utf16_length
utf16_length-append [] t = rw nil-append (omega arith)
utf16_length-append (c ∷ s) t = rw cons-append (omega (arith, utf16_length-append s t))

-- A template text is put together by `<>`.
infixr 65 ◌<>◌
abbrev pub ◌<>◌ : String → String → String
s <> t = s ++ t

-- `lines.join("\n")`
unfoldable pub join_lines : List String → String
join_lines List.[] = ""
join_lines (List.◌∷◌ x List.[]) = x
join_lines (List.◌∷◌ x (List.◌∷◌ y r)) = x <> "\n" <> join_lines (List.◌∷◌ y r)

-- What the lines after the first add to a joined text.
abbrev pub joined_length : List String → ℕ
joined_length List.[] = 0
joined_length (List.◌∷◌ x r) = 1 + utf16_length x + joined_length r

pub utf16_length-join_lines :
    (x : String) (r : List String)
    → utf16_length (join_lines (List.◌∷◌ x r)) ≡ utf16_length x + joined_length r
unfolding utf16_length join_lines
utf16_length-join_lines x List.[] = omega arith
utf16_length-join_lines x (List.◌∷◌ y r) =
    rw (utf16_length-append x ("\n" ++ join_lines (List.◌∷◌ y r))) (
      rw (utf16_length-append "\n" (join_lines (List.◌∷◌ y r)))
        (omega (arith, utf16_length-join_lines y r)))

pub joined_length-append :
    (xs ys : List String) → joined_length (List.◌++◌ xs ys) ≡ joined_length xs + joined_length ys
joined_length-append List.[] ys = omega arith
joined_length-append (List.◌∷◌ x xs) ys = omega (arith, joined_length-append xs ys)

-- The decimal digits of a number, as a template writes it.
digit : ℕ → String
digit zero = "0"
digit (suc zero) = "1"
digit (suc (suc zero)) = "2"
digit (suc (suc (suc zero))) = "3"
digit (suc (suc (suc (suc zero)))) = "4"
digit (suc (suc (suc (suc (suc zero))))) = "5"
digit (suc (suc (suc (suc (suc (suc zero)))))) = "6"
digit (suc (suc (suc (suc (suc (suc (suc zero))))))) = "7"
digit (suc (suc (suc (suc (suc (suc (suc (suc zero)))))))) = "8"
digit _ = "9"

decimal_from : ℕ → ℕ → String
unfolding digit
decimal_from zero n = ""
decimal_from (suc f) n =
    let rest = decimal_from f (n / 10) <> digit (n % 10) in if ltb n 10 then digit n else rest

unfoldable pub decimal : ℕ → String
unfolding decimal_from
decimal n = decimal_from (suc n) n

utf16_length-digit : (n : ℕ) → utf16_length (digit n) ≡ 1
unfolding utf16_length digit
utf16_length-digit zero = refl
utf16_length-digit (suc zero) = refl
utf16_length-digit (suc (suc zero)) = refl
utf16_length-digit (suc (suc (suc zero))) = refl
utf16_length-digit (suc (suc (suc (suc zero)))) = refl
utf16_length-digit (suc (suc (suc (suc (suc zero))))) = refl
utf16_length-digit (suc (suc (suc (suc (suc (suc zero)))))) = refl
utf16_length-digit (suc (suc (suc (suc (suc (suc (suc zero))))))) = refl
utf16_length-digit (suc (suc (suc (suc (suc (suc (suc (suc zero)))))))) = refl
utf16_length-digit _ = refl

utf16_length-decimal_from : (f k n : ℕ) → n < 10 ^ suc k → utf16_length (decimal_from f n) ≤ suc k
unfolding decimal_from
utf16_length-decimal_from zero k n h = unfold utf16_length in omega arith
utf16_length-decimal_from (suc f) zero n h =
    rw (lt→ltb n 10 h) (omega (arith, utf16_length-digit n))
utf16_length-decimal_from (suc f) (suc k) n h = elim (Bool-cases (ltb n 10)) [
  | inl small ↦ rw small (omega (arith, utf16_length-digit n))
  | inr large ↦ rw large (
      rw (utf16_length-append (decimal_from f (n / 10)) (digit (n % 10))) (
        omega (
          arith,
          utf16_length-digit (n % 10),
          utf16_length-decimal_from f k (n / 10) (omega (arith, pow-suc 10 (suc k))),
        )))
]

-- A number below a power of ten has at most so many digits.
pub utf16_length-decimal : (k n : ℕ) → n < 10 ^ suc k → utf16_length (decimal n) ≤ suc k
unfolding decimal
utf16_length-decimal k n h = utf16_length-decimal_from (suc n) k n h
