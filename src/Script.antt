-- ===== src/Script.antt =====
-- What the source uses of the language's own library: `trim`, `Number.parseInt`, safe integers.
-- Numbers are exact here; `parseInt` of more than 2^53 is rounded in the source, and is not safe
-- either way.
use openvac_web.Prelude.{
  ℕ, ◌+◌, ◌-◌, ◌*◌, String, ◌≡◌, refl, Bool, true, false, not, ◌&&◌, ◌||◌, Option, none, some, List,
  [], ◌∷◌, ltb, leb, ◌==◌, if◌then◌else◌, every,
}
use Prim.Native.Char.{code}

-- The code points of a text.
abbrev pub codes : String → List ℕ
codes String.[] = []
codes (String.◌∷◌ c s) = code c ∷ codes s

-- The variables of the process.
abbrev pub Environment : Type 0
Environment = String → Option String

-- White space and line ends of ECMAScript.
unfoldable pub is_space : ℕ → Bool
is_space c =
    (leb 9 c && leb c 13)
    || c == 32
    || c == 160
    || c == 0x1680
    || (leb 0x2000 c && leb c 0x200a)
    || c == 0x2028
    || c == 0x2029
    || c == 0x202f
    || c == 0x205f
    || c == 0x3000
    || c == 0xfeff

-- `!value.trim()`
unfoldable pub is_blank : String → Bool
unfolding is_space
is_blank s = every is_space (codes s)

unfoldable pub is_digit : ℕ → Bool
is_digit c = leb b'0' c && leb c b'9'

-- The digits at the front, after the value `acc` of those before them.
digits_from : ℕ → List ℕ → ℕ
digits_from acc [] = acc
digits_from acc (c ∷ cs) =
    let rest = digits_from (acc * 10 + (c - b'0')) cs in if is_digit c then rest else acc

-- A parsed integer: its sign (true below zero) and its size.
pub record Parsed : Type 0 where
  pub negative : Bool
  pub size : ℕ

unsigned : Bool → List ℕ → Option Parsed
unsigned negative [] = none
unsigned negative (c ∷ cs) =
    if is_digit c
    then some (record { negative = negative; size = digits_from 0 (c ∷ cs) })
    else none

signed : List ℕ → Option Parsed
unfolding unsigned digits_from is_digit
signed [] = none
signed (c ∷ cs) =
    if c == b'-'
    then unsigned true cs
    else if c == b'+'
    then unsigned false cs
    else unsigned false (c ∷ cs)

parse_codes : List ℕ → Option Parsed
unfolding signed is_space
parse_codes [] = none
parse_codes (c ∷ cs) = let rest = parse_codes cs in if is_space c then rest else signed (c ∷ cs)

-- `Number.parseInt(value, 10)`; none is NaN.
unfoldable pub parse_int : String → Option Parsed
unfolding parse_codes
parse_int s = parse_codes (codes s)

-- `Number.MAX_SAFE_INTEGER`
abbrev pub max_safe_integer : ℕ
max_safe_integer = 9007199254740991

-- The value of a parsed integer that is safe and above zero.
unfoldable pub safe_positive : Option Parsed → Option ℕ
safe_positive none = none
safe_positive (some p) =
    if not p.negative && (ltb 0 p.size && leb p.size max_safe_integer) then some p.size else none

parse_int_tests : safe_positive (parse_int " +30ms") ≡ some 30
unfolding parse_int safe_positive
parse_int_tests = refl

parse_int_negative : safe_positive (parse_int "-30") ≡ none
unfolding parse_int safe_positive
parse_int_negative = refl
