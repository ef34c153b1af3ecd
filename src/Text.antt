-- ===== src/Text.antt =====
-- What the program uses of Go's strings and strconv: decimal numbers, trimming and suffixes. A Go
-- `int` is its 64-bit pattern, a number below 2 ^ 64. Texts are read by their code points.
pub mod Decimal
use Prim.Native.Char.{Char, code}
use mathlib.Core.List.{reverse}
use dcm_kcli_provider.Prelude.{
  ℕ, zero, suc, ◌+◌, ◌-◌, ◌*◌, ◌/◌, ◌%◌, ◌^◌, String, Bool, true, false, ◌&&◌, ◌||◌, Option, none,
  some, List, [], ◌∷◌, ltb, leb, eqb, if◌then◌else◌,
}

abbrev pub int_mod : ℕ
int_mod = 2 ^ 64

abbrev pub int_limit : ℕ
int_limit = 2 ^ 63

-- n > 0, of an `int`
abbrev pub is_positive : ℕ → Bool
is_positive n = ltb 0 n && ltb n int_limit

abbrev pub codes : String → List ℕ
codes String.[] = []
codes (String.◌∷◌ c s) = code c ∷ codes s

abbrev pub is_digit : ℕ → Bool
is_digit c = leb b'0' c && leb c b'9'

pub digits_value : List ℕ → ℕ → Option ℕ
digits_value [] acc = some acc
digits_value (c ∷ cs) acc =
    let rest = digits_value cs (acc * 10 + (c - 48)) in if is_digit c then rest else none

-- the magnitude after the sign, at least one digit
abbrev pub magnitude : List ℕ → Option ℕ
magnitude [] = none
magnitude (c ∷ cs) = digits_value (c ∷ cs) 0

abbrev positive : Option ℕ → Option ℕ
positive none = none
positive (some n) = if ltb n int_limit then some n else none

abbrev negative : Option ℕ → Option ℕ
negative none = none
negative (some n) = if leb n int_limit then some ((int_mod - n) % int_mod) else none

-- strconv.Atoi, `none` for either of its errors
unfoldable pub atoi : List ℕ → Option ℕ
unfolding digits_value
atoi [] = none
atoi (c ∷ cs) =
    if eqb c b'-'
    then negative (magnitude cs)
    else if eqb c b'+'
    then positive (magnitude cs)
    else positive (magnitude (c ∷ cs))

pub digit : ℕ → Char
digit zero = "0"
digit (suc zero) = "1"
digit (suc (suc zero)) = "2"
digit (suc (suc (suc zero))) = "3"
digit (suc (suc (suc (suc zero)))) = "4"
digit (suc (suc (suc (suc (suc zero))))) = "5"
digit (suc (suc (suc (suc (suc (suc zero)))))) = "6"
digit (suc (suc (suc (suc (suc (suc (suc zero))))))) = "7"
digit (suc (suc (suc (suc (suc (suc (suc (suc zero)))))))) = "8"
digit (suc (suc (suc (suc (suc (suc (suc (suc (suc d))))))))) = "9"

pub itoa_loop : ℕ → ℕ → String → String
unfolding digit
itoa_loop zero n acc = acc
itoa_loop (suc fuel) n acc =
    let rest = itoa_loop fuel (n / 10) (String.◌∷◌ (digit (n % 10)) acc) in
    if ltb n 10 then String.◌∷◌ (digit n) acc else rest

-- strconv.Itoa of a number that is not negative
unfoldable pub itoa : ℕ → String
unfolding itoa_loop
itoa n = itoa_loop (suc n) n ""

-- unicode.IsSpace
unfoldable pub is_space : ℕ → Bool
is_space c =
    (leb 9 c && leb c 13)
    || eqb c 32
    || eqb c 0x85
    || eqb c 0xa0
    || eqb c 0x1680
    || (leb 0x2000 c && leb c 0x200a)
    || eqb c 0x2028
    || eqb c 0x2029
    || eqb c 0x202f
    || eqb c 0x205f
    || eqb c 0x3000

abbrev pub trim_left : List ℕ → List ℕ
trim_left [] = []
trim_left (c ∷ cs) = let rest = trim_left cs in if is_space c then rest else c ∷ cs

-- strings.TrimSpace
unfoldable pub trim_space : List ℕ → List ℕ
unfolding is_space
trim_space s = reverse (trim_left (reverse (trim_left s)))

abbrev pub strip_prefix : List ℕ → List ℕ → Option (List ℕ)
strip_prefix [] s = some s
strip_prefix (c ∷ t) [] = none
strip_prefix (c ∷ t) (d ∷ s) = let rest = strip_prefix t s in if eqb c d then rest else none

abbrev reversed : Option (List ℕ) → Option (List ℕ)
reversed none = none
reversed (some s) = some (reverse s)

-- strings.HasSuffix, with strings.TrimSuffix where it holds
unfoldable pub strip_suffix : List ℕ → List ℕ → Option (List ℕ)
strip_suffix t s = reversed (strip_prefix (reverse t) (reverse s))
