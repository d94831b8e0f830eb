-- ===== src/Strings/Texts.antt =====
-- The functions of string.c that compare and copy texts.
use kaush_os.Base.{
  ℕ, zero, suc, ◌+◌, ◌-◌, ◌≤◌, ◌<◌, ◌≡◌, refl, ◌∙◌, ◌&&◌, ◌==◌, ltb, leb, if◌then◌else◌, arith, [],
  ◌∷◌,
}
use kaush_os.Strings.{Bytes, Text, store, strcmp, strncmp, strnlen, strlcpy, copy_prefix}

-- Characters that end no text and fit into a char.
abbrev pub IsText : Text → Type 0
IsText [] = Unit {0}
IsText (c ∷ s) = (0 < c) × (c < 256) × IsText s

abbrev pub take : ℕ → Text → Text
take zero s = []
take (suc n) [] = []
take (suc n) (c ∷ s) = c ∷ take n s

-- s[i], with the NUL behind the text.
abbrev pub char_at : Text → ℕ → ℕ
char_at [] i = 0
char_at (c ∷ s) zero = c
char_at (c ∷ s) (suc i) = char_at s i

-- strncmp is 0 exactly where the first `n` characters of the two texts agree.
pub strncmp-eq :
    (n : ℕ) (p q : Text)
    → IsText p
    → IsText q
    → (strncmp p q n ≡ 0 → take n p ≡ take n q) × (take n p ≡ take n q → strncmp p q n ≡ 0)
unfolding strncmp
strncmp-eq zero p q tp tq = (λ e. refl, λ e. refl)
strncmp-eq (suc n) [] [] tp tq = (λ e. refl, λ e. refl)
strncmp-eq (suc n) [] (d ∷ q) tp tq = (λ e. absurd (omega (arith, tq, e)), λ e. cc)
strncmp-eq (suc n) (c ∷ p) [] tp tq = (λ e. absurd (omega (arith, tp, e)), λ e. cc)
strncmp-eq (suc n) (c ∷ p) (d ∷ q) tp tq =
    let (to, from) = strncmp-eq n p q tp.2 tq.2 in
    (λ e. ground (arith, to, tp, tq, e), λ e. ground (arith, from, e))

-- strcmp is 0 exactly for equal texts.
pub strcmp-eq :
    (p q : Text) → IsText p → IsText q → (strcmp p q ≡ 0 → p ≡ q) × (p ≡ q → strcmp p q ≡ 0)
unfolding strcmp
strcmp-eq [] [] tp tq = (λ e. refl, λ e. refl)
strcmp-eq [] (d ∷ q) tp tq = (λ e. absurd (omega (arith, tq, e)), λ e. cc)
strcmp-eq (c ∷ p) [] tp tq = (λ e. absurd (omega (arith, tp, e)), λ e. cc)
strcmp-eq (c ∷ p) (d ∷ q) tp tq =
    let (to, from) = strcmp-eq p q tp.2 tq.2 in
    (λ e. ground (arith, to, tp, tq, e), λ e. ground (arith, from, e))

-- What strlcpy leaves at an address, for `n` characters copied to `dst`.
abbrev pub copied : ℕ → Text → ℕ → Bytes → Bytes
copied dst src n m = λ a.
    if leb dst a && ltb a (dst + n) then char_at src (a - dst) else if a == dst + n then 0 else m a

char_at_first : (c : ℕ) (s : Text) (i : ℕ) → i ≡ 0 → char_at (c ∷ s) i ≡ c
char_at_first c s zero h = refl
char_at_first c s (suc i) h = absurd (omega (arith, h))

char_at_behind : (c : ℕ) (s : Text) (i j : ℕ) → i ≡ suc j → char_at (c ∷ s) i ≡ char_at s j
char_at_behind c s i j h = rw h

pub copied-cons :
    (dst c : ℕ) (src : Text) (n : ℕ) (m : Bytes) (a : ℕ)
    → copied (suc dst) src n (store dst c m) a ≡ copied dst (c ∷ src) (suc n) m a
copied-cons dst c src n m a =
    ground (arith, char_at_first c src (a - dst), char_at_behind c src (a - dst) (a - suc dst))

pub strnlen-le : (src : Text) (size : ℕ) → strnlen src size ≤ size
unfolding strnlen
strnlen-le src zero = omega arith
strnlen-le [] (suc size) = omega arith
strnlen-le (c ∷ src) (suc size) = omega (arith, strnlen-le src size)

copy_prefix-copied :
    (size dst : ℕ) (src : Text) (m : Bytes) (a : ℕ)
    → ((copy_prefix dst src size m).0 ≡ dst + strnlen src size)
      × ((copy_prefix dst src size m).1 a ≡ copied dst src (strnlen src size) m a)
unfolding copy_prefix strnlen
copy_prefix-copied zero dst src m a = ground arith
copy_prefix-copied (suc size) dst [] m a = ground arith
copy_prefix-copied (suc size) dst (c ∷ src) m a =
    let (end, at) = copy_prefix-copied size (suc dst) src (store dst c m) a in
    (omega (arith, end), at ∙ copied-cons dst c src (strnlen src size) m a)

-- strlcpy with a size that is not 0 copies the characters of the text, or one fewer than the size
-- where these do not fit, puts a NUL behind them, writes nowhere outside of the `size` bytes, and
-- returns how many it has copied.
pub strlcpy-copied :
    (size dst : ℕ) (src : Text) (m : Bytes) (a : ℕ)
    → ((strlcpy dst src (suc size) m).0 ≡ strnlen src size)
      × (strnlen src size ≤ size)
      × ((strlcpy dst src (suc size) m).1 a ≡ copied dst src (strnlen src size) m a)
unfolding strlcpy
strlcpy-copied size dst src m a =
    let (end, at) = copy_prefix-copied size dst src m a in
    (omega (arith, end), strnlen-le src size, at)
