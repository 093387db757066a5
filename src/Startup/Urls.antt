-- ===== src/Startup/Urls.antt =====
-- The operations on texts that gravity_utils/src/connection_prep.rs uses. A text is the list of its
-- characters' numbers.
use near_aurora_bridge.Base.{
  ℕ, zero, suc, ◌+◌, ◌/◌, ◌%◌, ◌&&◌, List, [], ◌∷◌, ltb, leb, ◌==◌, if◌then◌else◌,
}

-- "localhost"
abbrev pub localhost : List ℕ
localhost = 108 ∷ 111 ∷ 99 ∷ 97 ∷ 108 ∷ 104 ∷ 111 ∷ 115 ∷ 116 ∷ []

-- "http"
abbrev pub http : List ℕ
http = 104 ∷ 116 ∷ 116 ∷ 112 ∷ []

-- "https"
abbrev pub https : List ℕ
https = 104 ∷ 116 ∷ 116 ∷ 112 ∷ 115 ∷ []

-- "://::1:"
abbrev pub ipv6_host : List ℕ
ipv6_host = 58 ∷ 47 ∷ 47 ∷ 58 ∷ 58 ∷ 49 ∷ 58 ∷ []

-- "://127.0.0.1:"
abbrev pub ipv4_host : List ℕ
ipv4_host = 58 ∷ 47 ∷ 47 ∷ 49 ∷ 50 ∷ 55 ∷ 46 ∷ 48 ∷ 46 ∷ 48 ∷ 46 ∷ 49 ∷ 58 ∷ []

-- "https://"
abbrev pub https_start : List ℕ
https_start = 104 ∷ 116 ∷ 116 ∷ 112 ∷ 115 ∷ 58 ∷ 47 ∷ 47 ∷ []

-- ":80"
abbrev pub on_80 : List ℕ
on_80 = 58 ∷ 56 ∷ 48 ∷ []

-- ":443"
abbrev pub on_443 : List ℕ
on_443 = 58 ∷ 52 ∷ 52 ∷ 51 ∷ []

-- `trim_end_matches('/')`
abbrev pub trim_end_matches : List ℕ → List ℕ
trim_end_matches [] = []
trim_end_matches (c ∷ cs) = elim (trim_end_matches cs) [
  | [] ↦ if c == 47 then [] else c ∷ []
  | d ∷ ds ↦ c ∷ d ∷ ds
]

-- `to_lowercase`, which on other characters than these gives none of "localhost".
abbrev pub to_lowercase : List ℕ → List ℕ
to_lowercase [] = []
to_lowercase (c ∷ cs) = (if leb 65 c && leb c 90 then c + 32 else c) ∷ to_lowercase cs

print_digits : ℕ → ℕ → List ℕ → List ℕ
print_digits zero n digits = digits
print_digits (suc fuel) n digits =
    let rest = print_digits fuel (n / 10) ((48 + n % 10) ∷ digits) in
    if ltb n 10 then (48 + n) ∷ digits else rest

-- A port in decimal; it has 16 bits, and so at most five digits.
unfoldable pub print_number : ℕ → List ℕ
unfolding print_digits
print_number n = print_digits 5 n []
