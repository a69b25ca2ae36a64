-- ===== src/Docker/Texts.antt =====
-- The functions of Go's strings, strconv, fmt and net that internal/adapters/sandbox/docker_sandbox.go calls.
-- An int64 is a bit pattern below 2 ^ 64. Of an error of strconv or net only the cause is kept.
use Prim.Native.Char.{Char, code}
use Prim.Native.String.{slice, len}
use text.Mathlib.TextPositions.{len-append, slice-append_left, slice-append_right}
use text.Mathlib.TextLemmas.{append-eq-nil_iff}
use devops_platform.Base.{
  ℕ, zero, suc, ◌+◌, ◌-◌, ◌*◌, ◌/◌, ◌%◌, ◌^◌, ◌≤◌, ◌<◌, ◌≡◌, refl, ◌∙◌, sym, ap, Bool, true, false,
  ◌&&◌, not, ltb, leb, String, concat, ◌==◌, string_eq, nat_eq, if◌then◌else◌, arith, u64, Result,
  ok, err, Bool-cases, inl, inr, beq_refl,
}

abbrev char_is : ℕ → Char → Bool
char_is k c = code c == k

abbrev pub is_digit : Char → Bool
is_digit c = leb b'0' (code c) && leb (code c) b'9'

-- The digits of strconv.ParseUint, base 10, after those read as `n`.
unfoldable pub digits_from : ℕ → String → Result ℕ
digits_from n String.[] = ok n
digits_from n (String.◌∷◌ c s) =
    let next = n * 10 + (code c - b'0') in
    let rest = digits_from next s in
    if not (is_digit c)
    then err "invalid syntax"
    else if leb u64 next
    then err "value out of range"
    else rest

unfoldable pub parse_uint : String → Result ℕ
unfolding digits_from
parse_uint String.[] = err "invalid syntax"
parse_uint (String.◌∷◌ c s) = digits_from 0 (String.◌∷◌ c s)

-- The range of int64, after the sign.
abbrev pub positive : Result ℕ → Result ℕ
positive (ok n) = if leb (2 ^ 63) n then err "value out of range" else ok n
positive r = r

abbrev pub negative : Result ℕ → Result ℕ
negative (ok n) = if ltb (2 ^ 63) n then err "value out of range" else ok ((u64 - n) % u64)
negative r = r

-- strconv.ParseInt(s, 10, 64)
unfoldable pub parse_int : String → Result ℕ
unfolding parse_uint
parse_int String.[] = err "invalid syntax"
parse_int (String.◌∷◌ c s) =
    if code c == b'+'
    then positive (parse_uint s)
    else if code c == b'-'
    then negative (parse_uint s)
    else positive (parse_uint (String.◌∷◌ c s))

-- strings.HasSuffix and TrimSuffix
unfoldable pub has_suffix : String → String → Bool
has_suffix s t = leb (len t) (len s) && slice s (len s - len t) (len s) == t

unfoldable pub trim_suffix : String → String → String
trim_suffix s t = if has_suffix s t then slice s 0 (len s - len t) else s

cut : (s t : String) → len (concat s t) - len t ≡ len s
cut s t = omega (arith, len-append s t)

pub has_suffix-concat : (s t u : String) → len t ≡ len u → has_suffix (concat s t) u ≡ (t == u)
unfolding has_suffix
has_suffix-concat s t u e =
    let longer : leb (len u) (len (concat s t)) ≡ true = ground (arith, len-append s t) in
    let tail : slice (concat s t) (len (concat s t) - len u) (len (concat s t)) ≡ t =
      ap (λ k. slice (concat s t) (len (concat s t) - k) (len (concat s t))) (sym e)
      ∙ ap (λ k. slice (concat s t) k (len (concat s t))) (cut s t)
      ∙ ap (λ k. slice (concat s t) (len s) k) (len-append s t)
      ∙ slice-append_right s t in
    rw (longer, tail) refl

pub not_empty : (s t : String) → (t == "") ≡ false → (concat s t == "") ≡ false
not_empty s t h = elim (Bool-cases (concat s t == "")) [
  | inl b ↦
      let none_left =
        (append-eq-nil_iff {p = s} {q = t}).0 ((string_eq.equal_iff (concat s t) "").0 b) in
      absurd (ground (arith, string_eq.equal_iff t "", none_left.1))
  | inr b ↦ b
]

pub trim_suffix-concat : (s t : String) → trim_suffix (concat s t) t ≡ s
unfolding trim_suffix
trim_suffix-concat s t =
    rw (has_suffix-concat s t t refl, beq_refl t, cut s t) (slice-append_left s t)

-- fmt.Sprintf("%d", n) of a number that is not negative. The fuel is the number itself, which has fewer
-- digits.
abbrev pub digit : ℕ → Char
digit zero = "0"
digit (suc zero) = "1"
digit (suc (suc zero)) = "2"
digit (suc (suc (suc zero))) = "3"
digit (suc (suc (suc (suc zero)))) = "4"
digit (suc (suc (suc (suc (suc zero))))) = "5"
digit (suc (suc (suc (suc (suc (suc zero)))))) = "6"
digit (suc (suc (suc (suc (suc (suc (suc zero))))))) = "7"
digit (suc (suc (suc (suc (suc (suc (suc (suc zero)))))))) = "8"
digit _ = "9"

unfoldable pub digits : ℕ → ℕ → String → String
digits zero n after = String.◌∷◌ (digit n) after
digits (suc fuel) n after =
    let front = digits fuel (n / 10) (String.◌∷◌ (digit (n % 10)) after) in
    if ltb n 10 then String.◌∷◌ (digit n) after else front

unfoldable pub decimal : ℕ → String
unfolding digits
decimal n = digits n n ""

code-digit : (n : ℕ) → n < 10 → code (digit n) ≡ b'0' + n
code-digit zero h = refl
code-digit (suc zero) h = refl
code-digit (suc (suc zero)) h = refl
code-digit (suc (suc (suc zero))) h = refl
code-digit (suc (suc (suc (suc zero)))) h = refl
code-digit (suc (suc (suc (suc (suc zero))))) h = refl
code-digit (suc (suc (suc (suc (suc (suc zero)))))) h = refl
code-digit (suc (suc (suc (suc (suc (suc (suc zero))))))) h = refl
code-digit (suc (suc (suc (suc (suc (suc (suc (suc zero)))))))) h = refl
code-digit (suc (suc (suc (suc (suc (suc (suc (suc (suc zero))))))))) h = refl
code-digit (suc (suc (suc (suc (suc (suc (suc (suc (suc (suc n)))))))))) h =
    absurd (omega (arith, h))

-- A digit is read as itself.
digits_from-digit :
    (a n : ℕ) (after : String)
    → n < 10
    → a * 10 + n < u64
    → digits_from a (String.◌∷◌ (digit n) after) ≡ digits_from (a * 10 + n) after
unfolding digits_from
digits_from-digit a n after h b =
    let read = code-digit n h in
    let same : code (digit n) - b'0' ≡ n = omega (arith, read) in
    let is : is_digit (digit n) ≡ true = ground (arith, read) in
    let small : leb u64 (a * 10 + n) ≡ false = ground arith in rw (is, same, small) refl

first :
    (n : ℕ) (after : String)
    → n < 10
    → n < u64
    → digits_from 0 (String.◌∷◌ (digit n) after) ≡ digits_from n after
first n after h b =
    digits_from-digit 0 n after h (omega arith) ∙ ap (λ k. digits_from k after) (omega arith)

digits_from-digits :
    (fuel n : ℕ) (after : String)
    → n ≤ fuel
    → n < u64
    → digits_from 0 (digits fuel n after) ≡ digits_from n after
unfolding digits
digits_from-digits zero n after f b = first n after (omega arith) b
digits_from-digits (suc fuel) n after f b = elim (Bool-cases (ltb n 10)) [
  | inl s ↦ rw s (first n after (ground arith) b)
  | inr s ↦ rw s (
      digits_from-digits fuel (n / 10) (String.◌∷◌ (digit (n % 10)) after) (omega arith)
        (omega arith)
      ∙ digits_from-digit (n / 10) (n % 10) after (omega arith) (omega arith)
      ∙ ap (λ k. digits_from k after) (omega arith))
]

is_digit-digit : (n : ℕ) → is_digit (digit n) ≡ true
is_digit-digit zero = refl
is_digit-digit (suc zero) = refl
is_digit-digit (suc (suc zero)) = refl
is_digit-digit (suc (suc (suc zero))) = refl
is_digit-digit (suc (suc (suc (suc zero)))) = refl
is_digit-digit (suc (suc (suc (suc (suc zero))))) = refl
is_digit-digit (suc (suc (suc (suc (suc (suc zero)))))) = refl
is_digit-digit (suc (suc (suc (suc (suc (suc (suc zero))))))) = refl
is_digit-digit (suc (suc (suc (suc (suc (suc (suc (suc zero)))))))) = refl
is_digit-digit (suc (suc (suc (suc (suc (suc (suc (suc (suc n))))))))) = refl

digits_cons :
    (fuel n : ℕ) (after : String)
    → (c : Char) × (s : String) × (digits fuel n after ≡ String.◌∷◌ c s) × (is_digit c ≡ true)
unfolding digits
digits_cons zero n after = (digit n, after, refl, is_digit-digit n)
digits_cons (suc fuel) n after = elim (Bool-cases (ltb n 10)) [
  | inl s ↦ (digit n, after, rw s refl, is_digit-digit n)
  | inr s ↦
      let (c, t, e, d) = digits_cons fuel (n / 10) (String.◌∷◌ (digit (n % 10)) after) in
      (c, t, rw s e, d)
]

-- Only digits.
abbrev pub IsNumeral : String → Type 0
IsNumeral String.[] = Unit
IsNumeral (String.◌∷◌ c s) = (is_digit c ≡ true) × IsNumeral s

digits-IsNumeral : (fuel n : ℕ) (after : String) → IsNumeral after → IsNumeral (digits fuel n after)
unfolding digits
digits-IsNumeral zero n after h = (is_digit-digit n, h)
digits-IsNumeral (suc fuel) n after h = elim (Bool-cases (ltb n 10)) [
  | inl s ↦ rw s (is_digit-digit n, h)
  | inr s ↦ rw s (
      digits-IsNumeral fuel (n / 10) (String.◌∷◌ (digit (n % 10)) after)
        (is_digit-digit (n % 10), h))
]

pub decimal-IsNumeral : (n : ℕ) → IsNumeral (decimal n)
unfolding decimal
decimal-IsNumeral n = digits-IsNumeral n n "" tt

digits_from_empty : (n : ℕ) → digits_from n "" ≡ ok n
unfolding digits_from
digits_from_empty n = refl

-- The decimal text of a number of int64 is parsed as the number.
pub parse_int-decimal : (n : ℕ) → n < 2 ^ 63 → parse_int (decimal n) ≡ ok n
unfolding decimal parse_int parse_uint
parse_int-decimal n h =
    let (c, s, e, d) = digits_cons n n "" in
    let plus : (code c == b'+') ≡ false = ground arith in
    let minus : (code c == b'-') ≡ false = ground arith in
    let read : digits_from 0 (String.◌∷◌ c s) ≡ ok n =
      ap (digits_from 0) (sym e)
      ∙ digits_from-digits n n "" (omega arith) (omega arith)
      ∙ digits_from_empty n in
    let small : leb (2 ^ 63) n ≡ false = ground arith in rw (e, plus, minus, read, small) refl
