-- ===== src/Strings/Examples.antt =====
-- A memory in which every byte is its address, and short texts.
use kaush_os.Base.{◌≡◌}
use kaush_os.Strings.{Bytes, memmove}
use kaush_os.Strings.Blocks.{moved, memmove-moved}

abbrev addresses : Bytes
addresses = λ a. a

memmove-moved_example : memmove 12 10 5 addresses 14 ≡ moved 12 10 5 addresses 14
memmove-moved_example = memmove-moved 12 10 5 addresses 14
