-- ===== src/Base/Text.antt =====
-- Python's `str` as code points, `str(n)` and `int(text)` for numbers without sign.
use Prim.Native.Char.{code}
use Prim.Native.String.{String, ◌++◌ as ◌^^◌}
use Prim.Native.String.append
use Prim.Native.Nat.{ℕ, zero, suc, ◌+◌, ◌-◌, ◌*◌, ◌/◌, ◌%◌, ◌<◌}
use mathlib.Core.Path.{◌≡◌, refl, ap, ◌∙◌}
use mathlib.Core.Bool.{◌&&◌, false}
use mathlib.Core.Logic.{inl, inr}
use mathlib.Core.Option.{Option, none, some}
use mathlib.Core.List.{List, [], ◌∷◌, ◌++◌}
use native.Mathlib.Omega.{arith}
use exposure_atlas.Base.Lists.{is_empty}
use exposure_atlas.Base.Tests.{ltb, leb, if◌then◌else◌, Bool-cases}

-- The code points of a text; `String` has its own `[]` and `∷`.
unfoldable pub codes : String → List ℕ
codes String.[] = []
codes (String.◌∷◌ c s) = code c ∷ codes s

pub codes-append : (s t : String) → codes (s ^^ t) ≡ codes s ++ codes t
unfolding codes
codes-append String.[] t = ap codes (append.nil t)
codes-append (String.◌∷◌ c s) t =
    ap codes (append.cons c s t) ∙ ap (λ l. code c ∷ l) (codes-append s t)

-- One decimal digit.
unfoldable pub digit : ℕ → String
digit zero = "0"
digit (suc zero) = "1"
digit (suc (suc zero)) = "2"
digit (suc (suc (suc zero))) = "3"
digit (suc (suc (suc (suc zero)))) = "4"
digit (suc (suc (suc (suc (suc zero))))) = "5"
digit (suc (suc (suc (suc (suc (suc zero)))))) = "6"
digit (suc (suc (suc (suc (suc (suc (suc zero))))))) = "7"
digit (suc (suc (suc (suc (suc (suc (suc (suc zero)))))))) = "8"
digit _ = "9"

codes-digit : (n : ℕ) → n < 10 → codes (digit n) ≡ (b'0' + n) ∷ []
unfolding codes digit
codes-digit zero h = refl
codes-digit (suc zero) h = refl
codes-digit (suc (suc zero)) h = refl
codes-digit (suc (suc (suc zero))) h = refl
codes-digit (suc (suc (suc (suc zero)))) h = refl
codes-digit (suc (suc (suc (suc (suc zero))))) h = refl
codes-digit (suc (suc (suc (suc (suc (suc zero)))))) h = refl
codes-digit (suc (suc (suc (suc (suc (suc (suc zero))))))) h = refl
codes-digit (suc (suc (suc (suc (suc (suc (suc (suc zero)))))))) h = refl
codes-digit (suc (suc (suc (suc (suc (suc (suc (suc (suc zero))))))))) h = refl
codes-digit (suc (suc (suc (suc (suc (suc (suc (suc (suc (suc n)))))))))) h = absurd (omega arith)

-- `str(n)`; the fuel is more than the number of digits.
digits_of : ℕ → ℕ → String
digits_of zero n = ""
digits_of (suc f) n =
    let front = digits_of f (n / 10) in if ltb n 10 then digit n else front ^^ digit (n % 10)

unfoldable pub show_nat : ℕ → String
unfolding digits_of digit
show_nat n = digits_of (suc n) n

-- `int(text)` over decimal digits: any other text raises.
read_digits : ℕ → List ℕ → Option ℕ
read_digits n [] = some n
read_digits n (c ∷ cs) =
    if leb b'0' c && leb c b'9' then read_digits (n * 10 + (c - b'0')) cs else none

unfoldable pub read_nat : List ℕ → Option ℕ
unfolding read_digits
read_nat cs = if is_empty cs then none else read_digits 0 cs

is_empty-append : (xs : List ℕ) (y : ℕ) → is_empty (xs ++ y ∷ []) ≡ false
is_empty-append [] y = refl
is_empty-append (x ∷ xs) y = refl

read_digits-append :
    (n m : ℕ) (xs ys : List ℕ)
    → read_digits n xs ≡ some m
    → read_digits n (xs ++ ys) ≡ read_digits m ys
unfolding read_digits
read_digits-append n m [] ys h = ground arith
read_digits-append n m (x ∷ xs) ys h =
    ground (arith, read_digits-append (n * 10 + (x - b'0')) m xs ys)

read_digits-digit : (n d : ℕ) → d < 10 → read_digits n ((b'0' + d) ∷ []) ≡ some (n * 10 + d)
unfolding read_digits
read_digits-digit n d h = ground arith

read_digits-digits_of : (f n : ℕ) → n < f → read_digits 0 (codes (digits_of f n)) ≡ some n
unfolding digits_of
read_digits-digits_of zero n h = absurd (omega arith)
read_digits-digits_of (suc f) n h = elim (Bool-cases (ltb n 10)) [
  | inl small ↦
      rw (small, codes-digit n (ground arith))
        (rw (read_digits-digit 0 n (ground arith)) (ap some (omega arith)))
  | inr big ↦
      rw (big, codes-append, codes-digit (n % 10) (omega arith))
        (rw
          (
            read_digits-append 0 (n / 10) (codes (digits_of f (n / 10))) ((b'0' + n % 10) ∷ [])
                (read_digits-digits_of f (n / 10) (ground arith)),
            read_digits-digit (n / 10) (n % 10) (omega arith),
          )
          (ap some (omega arith)))
]

is_empty-digits_of : (f n : ℕ) → is_empty (codes (digits_of (suc f) n)) ≡ false
unfolding digits_of
is_empty-digits_of f n = elim (Bool-cases (ltb n 10)) [
  | inl small ↦ rw (small, codes-digit n (ground arith))
  | inr big ↦
      rw (big, codes-append, codes-digit (n % 10) (omega arith))
        (is_empty-append (codes (digits_of f (n / 10))) (b'0' + n % 10))
]

-- Reading back what was printed gives the number.
pub read_nat-show_nat : (n : ℕ) → read_nat (codes (show_nat n)) ≡ some n
unfolding read_nat show_nat
read_nat-show_nat n = rw (is_empty-digits_of n n) (read_digits-digits_of (suc n) n (omega arith))
