-- ===== src/Printf/Buffer.antt =====
-- vsnprintf: the formatted output in a buffer. The two lengths are ints of 32 bits.
use kaush_os.Base.{ℕ, zero, suc, ◌+◌, ◌-◌, ◌%◌, ◌^◌, ◌==◌, Bool, ◌≡◌, [], ◌∷◌, ltb, if◌then◌else◌}
use kaush_os.Strings.{Text, Bytes, store, strnlen}
use kaush_os.Strings.Texts.{copied}
use kaush_os.Printf.Parse.{Result, done, undefined, ◌>>=◌, Args}
use kaush_os.Printf.Format.{vprintf}

-- struct vsnprintf_aux, with the memory that its pointer goes into; its length is `count`. Of the
-- two ints, `max_length` is the pattern on 32 bits, and `count` is never negative.
pub record Aux : Type 0 where
  pub p : ℕ
  pub count : ℕ
  pub max_length : ℕ
  pub memory : Bytes

-- The comparison of two ints.
abbrev pub signed_less : ℕ → ℕ → Bool
signed_less a b = ltb ((a + 2 ^ 31) % 2 ^ 32) ((b + 2 ^ 31) % 2 ^ 32)

-- vsnprintf_helper. The increment of the greatest int is undefined.
unfoldable pub vsnprintf_helper : ℕ → Aux → Result Aux
vsnprintf_helper ch aux =
    if aux.count == 2 ^ 31 - 1
    then undefined
    else done (
        if signed_less aux.count aux.max_length
        then record aux { count = suc aux.count; p = suc aux.p; memory = store aux.p ch aux.memory }
        else record aux { count = suc aux.count })

-- The calls of the helper for the characters of an output.
unfoldable pub output_all : Text → Aux → Result Aux
output_all [] aux = done aux
output_all (ch ∷ out) aux = do aux1 ← vsnprintf_helper ch aux; output_all out aux1

-- The NUL behind the output, and the length that is returned.
abbrev pub terminate : ℕ → Aux → ℕ × Bytes
terminate zero aux = (aux.count, aux.memory)
terminate (suc buf_size) aux = (aux.count, store aux.p 0 aux.memory)

abbrev pub initial_aux : ℕ → ℕ → Bytes → Aux
initial_aux buffer buf_size m = record {
  p = buffer;
  count = 0;
  max_length = (buf_size - 1) % 2 ^ 32;
  memory = m;
}

unfoldable pub vsnprintf : ℕ → ℕ → Text → Args → Bytes → Result (ℕ × Bytes)
vsnprintf buffer buf_size format args m = do
  out ← vprintf format args
  aux ← output_all out (initial_aux buffer buf_size m)
  done (terminate buf_size aux)

-- The helper and its calls where no int overflows.
put_char : ℕ → Aux → Aux
put_char ch aux =
    if ltb aux.count aux.max_length
    then record aux { count = suc aux.count; p = suc aux.p; memory = store aux.p ch aux.memory }
    else record aux { count = suc aux.count }

put_all : Text → Aux → Aux
put_all [] aux = aux
put_all (ch ∷ out) aux = put_all out (put_char ch aux)

-- What the buffer holds behind the NUL, where `room` more characters have a place in it.
Terminated : Text → ℕ → Aux → ℕ → Type 0
Terminated out room aux a =
    let end = put_all out aux in
    (end.p ≡ aux.p + strnlen out room)
    × (store end.p 0 end.memory a ≡ copied aux.p out (strnlen out room) aux.memory a)
