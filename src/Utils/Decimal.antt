-- ===== src/Utils/Decimal.antt =====
-- What the program uses of Go's package `strconv`: `Itoa` and `Atoi` on the 64-bit `int`.
use aline_engine.Base.{
  ℕ, zero, suc, ◌+◌, ◌-◌, ◌*◌, ◌/◌, ◌%◌, ◌^◌, ◌≤◌, ◌<◌, ◌≡◌, refl, ◌≢◌, ap, ◌∙◌, Bool, true, ◌||◌,
  Option, none, some, [], ◌∷◌, arith, ltb, ◌==◌, if◌then◌else◌, length,
}
use aline_engine.Base.Int.{ℤ, pos, negsuc}
use aline_engine.Base.Text.{Text}
use aline_engine.Utils.Strings.{count}

-- The decimal digits of `n` before `out`; the fuel is above the number of digits.
unfoldable pub digits : ℕ → ℕ → Text → Text
digits zero n out = out
digits (suc fuel) n out =
    let rest = digits fuel (n / 10) ((b'0' + n % 10) ∷ out) in if n == 0 then out else rest

abbrev print_nat : ℕ → Text
print_nat n = if n == 0 then b'0' ∷ [] else digits n n []

-- `strconv.Itoa`, which is also the format `%d`.
unfoldable pub itoa : ℤ → Text
unfolding digits
itoa (pos n) = print_nat n
itoa (negsuc n) = b'-' ∷ print_nat (suc n)

unfoldable pub scan : Text → ℕ → Option ℕ
scan [] n = some n
scan (c ∷ s) n =
    let rest = scan s (n * 10 + (c - b'0')) in if ltb c b'0' || ltb b'9' c then none else rest

abbrev scan_digits : Text → Option ℕ
scan_digits [] = none
scan_digits (c ∷ s) = scan (c ∷ s) 0

abbrev negate : ℕ → ℤ
negate zero = pos 0
negate (suc n) = negsuc n

abbrev with_sign : (ℕ → ℤ) → Option ℕ → Option ℤ
with_sign f none = none
with_sign f (some n) = some (f n)

-- A sign and digits, with no bound.
unfoldable pub parse_int : Text → Option ℤ
unfolding scan
parse_int [] = none
parse_int (c ∷ s) =
    if c == b'-'
    then with_sign negate (scan_digits s)
    else if c == b'+'
    then with_sign pos (scan_digits s)
    else with_sign pos (scan_digits (c ∷ s))

-- The values of Go's `int`.
abbrev pub fits_int : ℤ → Bool
fits_int (pos n) = ltb n (2 ^ 63)
fits_int (negsuc n) = ltb n (2 ^ 63)

abbrev in_range : Option ℤ → Option ℤ
in_range none = none
in_range (some i) = if fits_int i then some i else none

-- `strconv.Atoi`; `none` is its error.
unfoldable pub atoi : Text → Option ℤ
unfolding parse_int
atoi s = in_range (parse_int s)

digits_step :
    (fuel n : ℕ) (out : Text)
    → digits (suc fuel) n out
      ≡ (if n == 0 then out else digits fuel (n / 10) ((b'0' + n % 10) ∷ out))
unfolding digits
digits_step fuel n out = refl

scan_last : (n : ℕ) (out : Text) → scan ((b'0' + n % 10) ∷ out) (n / 10) ≡ scan out n
unfolding scan
scan_last n out = ground arith

scan-digits : (fuel n : ℕ) (out : Text) → n ≤ fuel → scan (digits fuel n out) 0 ≡ scan out n
unfolding digits
scan-digits zero n out h = ground arith
scan-digits (suc fuel) n out h =
    ground (arith, scan_last n out, scan-digits fuel (n / 10) ((b'0' + n % 10) ∷ out))

length-digits : (fuel n : ℕ) (out : Text) → length out ≤ length (digits fuel n out)
unfolding digits
length-digits zero n out = omega arith
length-digits (suc fuel) n out = ground (arith, length-digits fuel (n / 10) ((b'0' + n % 10) ∷ out))

-- The printed number holds no byte that is not a digit.
count-digits :
    (c fuel n : ℕ) (out : Text)
    → ((d : ℕ) → d < 10 → b'0' + d ≢ c)
    → count c (digits fuel n out) ≡ count c out
unfolding digits
count-digits c zero n out h = refl
count-digits c (suc fuel) n out h =
    ground (arith, h (n % 10), count-digits c fuel (n / 10) ((b'0' + n % 10) ∷ out) h)

count-print_nat : (c n : ℕ) → ((d : ℕ) → d < 10 → b'0' + d ≢ c) → count c (print_nat n) ≡ 0
count-print_nat c n h = ground (arith, h 0, count-digits c n n [] h)

-- A printed number holds neither of the brackets that stand round it in a job's key.
pub count-itoa :
    (c : ℕ) (i : ℤ) → ((d : ℕ) → d < 10 → b'0' + d ≢ c) → b'-' ≢ c → count c (itoa i) ≡ 0
unfolding itoa
count-itoa c (pos n) h m = count-print_nat c n h
count-itoa c (negsuc n) h m = ground (arith, count-print_nat c (suc n) h)

print_nat-ne-nil : (n : ℕ) → print_nat n ≢ []
print_nat-ne-nil zero = ground arith
print_nat-ne-nil (suc n) =
    ground
      (arith, digits_step n (suc n) [], length-digits n (suc n / 10) ((b'0' + suc n % 10) ∷ []))

scan_digits_lem : (s : Text) → s ≢ [] → scan_digits s ≡ scan s 0
scan_digits_lem [] h = absurd (h refl)
scan_digits_lem (c ∷ s) h = refl

scan-print_nat : (n : ℕ) → scan (print_nat n) 0 ≡ some n
unfolding scan
scan-print_nat n = ground (arith, scan-digits n n [])

scan_digits-print_nat : (n : ℕ) → scan_digits (print_nat n) ≡ some n
scan_digits-print_nat n = scan_digits_lem _ (print_nat-ne-nil n) ∙ scan-print_nat n

parse_int_unsigned :
    (s : Text) → count b'-' s ≡ 0 → count b'+' s ≡ 0 → parse_int s ≡ with_sign pos (scan_digits s)
unfolding parse_int
parse_int_unsigned [] p q = refl
parse_int_unsigned (c ∷ s) p q = ground arith

parse_int-print_nat : (n : ℕ) → parse_int (print_nat n) ≡ some (pos n)
parse_int-print_nat n = ground (
  arith,
  parse_int_unsigned (print_nat n),
  count-print_nat b'-' n (λ d h. omega arith),
  count-print_nat b'+' n (λ d h. omega arith),
  scan_digits-print_nat n,
)

-- A printed integer is read back, whatever its size.
pub parse_int-itoa : (i : ℤ) → parse_int (itoa i) ≡ some i
unfolding itoa
parse_int-itoa (pos n) = parse_int-print_nat n
parse_int-itoa (negsuc n) = unfold parse_int in ground (arith, scan_digits-print_nat (suc n))

pub atoi-itoa : (i : ℤ) → fits_int i ≡ true → atoi (itoa i) ≡ some i
unfolding atoi
atoi-itoa i h = rw (parse_int-itoa i) (rw h)

pub itoa_injective : (i j : ℤ) → itoa i ≡ itoa j → i ≡ j
itoa_injective i j e = cc (parse_int-itoa i, parse_int-itoa j, ap parse_int e)
