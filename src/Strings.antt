-- ===== src/Strings.antt =====
-- KaushOS/lib/string.c. A string that is only read is the list of its characters before the NUL, and
-- a pointer into it is what is left of the list; `head` at its end is the NUL. Memory that is
-- written is a function from addresses to bytes, and blocks do not wrap around its end. An int or
-- a long is its 32-bit pattern.
pub mod Blocks
pub mod Texts
mod Examples
use kaush_os.Base.{
  ℕ, zero, suc, ◌+◌, ◌-◌, ◌*◌, ◌%◌, ◌^◌, Bool, true, false, ◌&&◌, ◌||◌, Option, none, some, List,
  [], ◌∷◌, ◌==◌, ltb, leb, if◌then◌else◌,
}

abbrev pub Text : Type 0
Text = List ℕ

abbrev pub Bytes : Type 0
Bytes = ℕ → ℕ

-- *s and s + 1.
abbrev pub head : Text → ℕ
head [] = 0
head (c ∷ s) = c

abbrev pub tail : Text → Text
tail [] = []
tail (c ∷ s) = s

abbrev pub store : ℕ → ℕ → Bytes → Bytes
store p v m = λ a. if a == p then v else m a

-- The difference of two characters as an int.
abbrev pub difference : ℕ → ℕ → ℕ
difference a b = (a + 2 ^ 32 - b) % 2 ^ 32

unfoldable pub strlen : Text → ℕ
strlen [] = 0
strlen (c ∷ s) = suc (strlen s)

unfoldable pub strnlen : Text → ℕ → ℕ
strnlen s zero = 0
strnlen [] (suc size) = 0
strnlen (c ∷ s) (suc size) = suc (strnlen s size)

pub strcpy : ℕ → Text → Bytes → Bytes
strcpy dst [] m = store dst 0 m
strcpy dst (c ∷ src) m = strcpy (suc dst) src (store dst c m)

-- The loop of strncpy over `size` characters.
pub strncpy : ℕ → Text → ℕ → Bytes → Bytes
strncpy dst src zero m = m
strncpy dst src (suc size) m = strncpy (suc dst) (tail src) size (store dst (head src) m)

-- The loop of strlcpy once its size is decremented, and the NUL behind it; the end of the copy.
pub copy_prefix : ℕ → Text → ℕ → Bytes → ℕ × Bytes
copy_prefix dst src zero m = (dst, store dst 0 m)
copy_prefix dst [] (suc size) m = (dst, store dst 0 m)
copy_prefix dst (c ∷ src) (suc size) m = copy_prefix (suc dst) src size (store dst c m)

unfoldable pub strlcpy : ℕ → Text → ℕ → Bytes → ℕ × Bytes
strlcpy dst src zero m = (0, m)
strlcpy dst src (suc size) m = let (end, m1) = copy_prefix dst src size m in (end - dst, m1)

unfoldable pub strcmp : Text → Text → ℕ
strcmp [] q = difference 0 (head q)
strcmp (c ∷ p) [] = difference c 0
strcmp (c ∷ p) (d ∷ q) = if c == d then strcmp p q else difference c d

unfoldable pub strncmp : Text → Text → ℕ → ℕ
strncmp p q zero = 0
strncmp [] q (suc n) = difference 0 (head q)
strncmp (c ∷ p) [] (suc n) = difference c 0
strncmp (c ∷ p) (d ∷ q) (suc n) = if c == d then strncmp p q n else difference c d

pub strchr : Text → ℕ → Option Text
strchr [] c = none
strchr (d ∷ s) c = if d == c then some (d ∷ s) else strchr s c

pub strfind : Text → ℕ → Text
strfind [] c = []
strfind (d ∷ s) c = if d == c then d ∷ s else strfind s c

-- The loop of memset over `n` bytes.
pub set_bytes : ℕ → ℕ → ℕ → Bytes → Bytes
set_bytes zero p c m = m
set_bytes (suc n) p c m = set_bytes n (suc p) c (store p (c % 256) m)

-- The counter is an int, which is negative above 2 ^ 31. At 2 ^ 31 its first decrement overflows, for
-- which C says nothing; the model leaves the memory there as well.
pub memset : ℕ → ℕ → ℕ → Bytes → Bytes
memset v c n m = if ltb n (2 ^ 31) then set_bytes n v c m else m

pub memcpy : ℕ → ℕ → ℕ → Bytes → Bytes
memcpy dst src zero m = m
memcpy dst src (suc n) m = memcpy (suc dst) (suc src) n (store dst (m src) m)

-- The loop of memmove from the last of `n` bytes down; the pointers stand behind the blocks.
pub move_down : ℕ → ℕ → ℕ → Bytes → Bytes
move_down d s zero m = m
move_down d s (suc n) m = move_down (d - 1) (s - 1) n (store (d - 1) (m (s - 1)) m)

pub memmove : ℕ → ℕ → ℕ → Bytes → Bytes
memmove dst src n m =
    if ltb src dst && ltb dst (src + n)
    then move_down (dst + n) (src + n) n m
    else memcpy dst src n m

pub memcmp : ℕ → ℕ → ℕ → Bytes → ℕ
memcmp s1 s2 zero m = 0
memcmp s1 s2 (suc n) m =
    if m s1 == m s2 then memcmp (suc s1) (suc s2) n m else difference (m s1) (m s2)

pub memfind : ℕ → ℕ → ℕ → Bytes → ℕ
memfind s c zero m = s
memfind s c (suc n) m = if m s == c % 256 then s else memfind (suc s) c n m

-- strtol, part by part: the blanks, the sign, the prefix that names the base, and the digits. A base
-- is not negative.
unfoldable pub skip_blanks : Text → Text
skip_blanks [] = []
skip_blanks (c ∷ s) = if c == b' ' || c == 9 then skip_blanks s else c ∷ s

unfoldable pub take_sign : Text → Bool × Text
take_sign s =
    if head s == b'+'
    then (false, tail s)
    else if head s == b'-'
    then (true, tail s)
    else (false, s)

unfoldable pub take_base : Text → ℕ → ℕ × Text
take_base s base =
    if (base == 0 || base == 16) && (head s == b'0' && head (tail s) == b'x')
    then (16, tail (tail s))
    else if base == 0 && head s == b'0'
    then (8, tail s)
    else if base == 0
    then (10, s)
    else (base, s)

-- The digit that a character stands for.
unfoldable pub digit_of : ℕ → Option ℕ
digit_of c =
    if leb b'0' c && leb c b'9'
    then some (c - b'0')
    else if leb b'a' c && leb c b'z'
    then some (c - b'a' + 10)
    else if leb b'A' c && leb c b'Z'
    then some (c - b'A' + 10)
    else none

unfoldable pub take_digits : Text → ℕ → ℕ → ℕ × Text
take_digits [] base val = (val, [])
take_digits (c ∷ s) base val = elim (digit_of c) [
  | none ↦ (val, c ∷ s)
  | some dig ↦ elim (leb base dig) [
    | true ↦ (val, c ∷ s)
    | false ↦ take_digits s base ((val * base + dig) % 2 ^ 32)
  ]
]

-- strtol, with the rest of the text that it stores in *endptr.
unfoldable pub strtol : Text → ℕ → ℕ × Text
unfolding skip_blanks take_sign take_base
strtol s base =
    let (neg, s1) = take_sign (skip_blanks s) in
    let (base1, s2) = take_base s1 base in
    let (val, end) = take_digits s2 base1 0 in ((if neg then (2 ^ 32 - val) % 2 ^ 32 else val), end)
