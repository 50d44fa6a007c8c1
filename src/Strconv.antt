-- ===== src/Strconv.antt =====
-- The functions of Go's strconv that the program calls on annotation values.
pub mod RoundTrip
use Prim.Native.Char.{Char}
use Prim.Native.String
use kube_csr.Base.{
  ℕ, zero, suc, ◌+◌, ◌-◌, ◌*◌, ◌/◌, ◌%◌, ◌^◌, String, ◌<>◌, Bool, true, false, not, ◌&&◌, List, [],
  ◌∷◌, ltb, leb, ◌==◌, codes, if◌then◌else◌,
}
use kube_csr.Base.Int.{ℤ, pos, negsuc}

-- What `ParseUint` finds: a number, a byte that is no digit, or a number of 2^64 and above.
pub data Scan : Type 0 where
  number : ℕ → Scan
  bad_syntax out_of_range : Scan

is_digit : ℕ → Bool
is_digit c = leb b'0' c && leb c b'9'

-- The loop of `ParseUint`, which stops at the first bad byte or overflow.
parse_uint : List ℕ → ℕ → Scan
parse_uint [] n = number n
parse_uint (c ∷ cs) n =
    let n' : ℕ = n * 10 + (c - b'0') in
    let rest = parse_uint cs n' in
    if not (is_digit c) then bad_syntax else if ltb n' (2 ^ 64) then rest else out_of_range

-- The value of an `int64` with its sign, clamped to the range; the flag says that there is no error.
signed : Bool → Scan → ℤ × Bool
signed _ bad_syntax = (pos 0, false)
signed true out_of_range = (negsuc (2 ^ 63 - 1), false)
signed false out_of_range = (pos (2 ^ 63 - 1), false)
signed true (number n) =
    if ltb (2 ^ 63) n
    then (negsuc (2 ^ 63 - 1), false)
    else if n == 0
    then (pos 0, true)
    else (negsuc (n - 1), true)
signed false (number n) = if ltb n (2 ^ 63) then (pos n, true) else (pos (2 ^ 63 - 1), false)

parse_digits : Bool → List ℕ → ℤ × Bool
parse_digits minus [] = (pos 0, false)
parse_digits minus (c ∷ cs) = signed minus (parse_uint (c ∷ cs) 0)

parse_int : List ℕ → ℤ × Bool
parse_int [] = (pos 0, false)
parse_int (c ∷ cs) =
    if c == b'-'
    then parse_digits true cs
    else if c == b'+'
    then parse_digits false cs
    else parse_digits false (c ∷ cs)

-- strconv.Atoi: the value, and whether the error is nil.
unfoldable pub atoi : String → ℤ × Bool
unfolding is_digit parse_uint signed parse_digits parse_int
atoi s = parse_int (codes s)

digit : ℕ → Char
digit zero = "0"
digit (suc zero) = "1"
digit (suc (suc zero)) = "2"
digit (suc (suc (suc zero))) = "3"
digit (suc (suc (suc (suc zero)))) = "4"
digit (suc (suc (suc (suc (suc zero))))) = "5"
digit (suc (suc (suc (suc (suc (suc zero)))))) = "6"
digit (suc (suc (suc (suc (suc (suc (suc zero))))))) = "7"
digit (suc (suc (suc (suc (suc (suc (suc (suc zero)))))))) = "8"
digit _ = "9"

-- The decimal digits of a number in front of a text; each round takes the last digit.
format_digits : ℕ → ℕ → String → String
format_digits zero n s = s
format_digits (suc f) n s =
    let rest = format_digits f (n / 10) (String.◌∷◌ (digit (n % 10)) s) in
    if ltb n 10 then String.◌∷◌ (digit n) s else rest

-- strconv.Itoa
unfoldable pub itoa : ℤ → String
unfolding digit format_digits
itoa (pos n) = format_digits (suc n) n ""
itoa (negsuc n) = String.◌∷◌ "-" (format_digits (suc (suc n)) (suc n) "")
