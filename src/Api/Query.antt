-- ===== src/Api/Query.antt =====
-- What `handle_hls_live` of src/api.rs reads from the raw query: `split`, `split_once`, `find_map`
-- and `u64::from_str` of Rust's library, on the bytes of a text.
use oasis_nvr.Prelude.{
  ℕ, ◌+◌, ◌-◌, ◌*◌, ◌^◌, ◌&&◌, Option, none, some, List, [], ◌∷◌, leb, ltb, ◌==◌, if◌then◌else◌,
  bytes_eq,
}
use oasis_nvr.Utf8.{Text}

abbrev push_first : ℕ → List Text → List Text
push_first x [] = (x ∷ []) ∷ []
push_first x (p ∷ ps) = (x ∷ p) ∷ ps

unfoldable pub split : ℕ → Text → List Text
split sep [] = [] ∷ []
split sep (x ∷ xs) = let rest = split sep xs in if x == sep then [] ∷ rest else push_first x rest

unfoldable pub split_once : ℕ → Text → Option (Text × Text)
split_once sep [] = none
split_once sep (x ∷ xs) =
    let rest = split_once sep xs in
    if x == sep then some ([], xs) else elim rest [ none ↦ none | some kv ↦ some (x ∷ kv.0, kv.1) ]

unfoldable pub parse_digits : ℕ → Text → Option ℕ
parse_digits acc [] = some acc
parse_digits acc (d ∷ ds) =
    let next = acc * 10 + (d - 48) in
    let rest = parse_digits next ds in
    if leb 48 d && (leb d 57 && ltb next (2 ^ 64)) then rest else none

-- A sign `+` may stand before the digits.
unfoldable pub parse_u64 : Text → Option ℕ
parse_u64 [] = none
parse_u64 (d ∷ ds) =
    if d == 43
    then elim ds [ [] ↦ none | x ∷ xs ↦ parse_digits 0 (x ∷ xs) ]
    else parse_digits 0 (d ∷ ds)

-- "_HLS_msn"
abbrev pub msn_key : Text
msn_key = 95 ∷ 72 ∷ 76 ∷ 83 ∷ 95 ∷ 109 ∷ 115 ∷ 110 ∷ []

-- The number that one pair gives.
unfoldable pub msn_of : Text → Option ℕ
msn_of pair = elim (split_once 61 pair) [
  | none ↦ none
  | some kv ↦ if bytes_eq kv.0 msn_key then parse_u64 kv.1 else none
]

unfoldable pub find_msn : List Text → Option ℕ
find_msn [] = none
find_msn (pair ∷ pairs) =
    let rest = find_msn pairs in elim (msn_of pair) [ some n ↦ some n | none ↦ rest ]

unfoldable pub block_msn : Option Text → Option ℕ
block_msn none = none
block_msn (some query) = find_msn (split 38 query)
