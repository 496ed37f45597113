-- ===== src/Utf8.antt =====
-- What the source uses of `str`: `std::str::from_utf8` and `trim_end_matches('\0')`, on the bytes
-- of a text.
pub mod Padding
use oasis_nvr.Prelude.{
  ℕ, Bool, true, false, ◌&&◌, ◌||◌, List, [], ◌∷◌, leb, ltb, ◌==◌, if◌then◌else◌, bytes_eq,
}

abbrev pub Text : Type 0
Text = List ℕ

-- Whether a text is among these.
abbrev pub contains : List Text → Text → Bool
contains [] t = false
contains (x ∷ xs) t = bytes_eq x t || contains xs t

within : ℕ → ℕ → ℕ → Bool
within lo hi b = leb lo b && leb b hi

-- The second byte after a first byte of a three- or four-byte sequence: no overlong form, no
-- surrogate, nothing above U+10FFFF.
second_of_three : ℕ → ℕ → Bool
unfolding within
second_of_three a b =
    if a == 0xe0
    then within 0xa0 0xbf b
    else (if a == 0xed then within 0x80 0x9f b else within 0x80 0xbf b)

second_of_four : ℕ → ℕ → Bool
unfolding within
second_of_four a b =
    if a == 0xf0
    then within 0x90 0xbf b
    else (if a == 0xf4 then within 0x80 0x8f b else within 0x80 0xbf b)

-- What is still to come of the current sequence.
pub data Expect : Type 0 where
  start : Expect
  one two : Expect
  after_three after_four : ℕ → Expect

next_expect : Expect → ℕ → Bool × Expect
unfolding within second_of_three second_of_four
next_expect start b =
    if ltb b 0x80
    then (true, start)
    else (if within 0xc2 0xdf b
        then (true, one)
        else (if within 0xe0 0xef b
            then (true, after_three b)
            else (within 0xf0 0xf4 b, after_four b)))
next_expect one b = (within 0x80 0xbf b, start)
next_expect two b = (within 0x80 0xbf b, one)
next_expect (after_three a) b = (second_of_three a b, one)
next_expect (after_four a) b = (second_of_four a b, two)

at_start : Expect → Bool
at_start start = true
at_start _ = false

utf8_from : Expect → Text → Bool
utf8_from e [] = at_start e
utf8_from e (b ∷ bs) = let (fine, e') = next_expect e b in fine && utf8_from e' bs

-- Whether `std::str::from_utf8` accepts the bytes.
unfoldable pub is_utf8 : Text → Bool
unfolding utf8_from next_expect at_start
is_utf8 bs = utf8_from start bs

drop_zero : ℕ → Text → Text
drop_zero b [] = if b == 0 then [] else b ∷ []
drop_zero b (c ∷ cs) = b ∷ c ∷ cs

-- `trim_end_matches('\0')`
unfoldable pub trim_zeros : Text → Text
unfolding drop_zero
trim_zeros [] = []
trim_zeros (b ∷ bs) = drop_zero b (trim_zeros bs)
