-- ===== src/Ob/Object.antt =====
-- KaushOS/kern/ob/ob.c: the reference and handle counts of an object and its removal. The procedures
-- that an object's type supplies are not modelled; memory that was given back to the pool is an
-- object whose header is no longer valid.
use kaush_os.Base.{
  ℕ, ◌+◌, ◌-◌, ◌%◌, ◌^◌, Bool, false, not, ◌&&◌, ◌==◌, ◌!=◌, ltb, leb, if◌then◌else◌,
}
use kaush_os.Base.Outcome.{Outcome, ok, assert, ◌>>◌}

abbrev dispatch_level : ℕ
dispatch_level = 2

-- OBJECT_HEADER: `valid` is the test of Magic, `named` that of ObjectName, `permanent` and `inherit`
-- are bits of Attributes. The address of a type is not 0, which is NULL.
pub record Header : Type 0 where
  pub ref_count : ℕ
  pub open_handle_count : ℕ
  pub permanent : Bool
  pub inherit : Bool
  pub named : Bool
  pub object_type : ℕ
  pub valid : Bool

pub record Objects : Type 0 where
  pub current_irql : ℕ
  pub header : ℕ → Header

abbrev pub set_header : ℕ → Header → Objects → Objects
set_header o h s = record s { header = λ p. if p == o then h else s.header p }

-- A LONG that is greater than 0.
abbrev pub is_positive : ℕ → Bool
is_positive n = ltb 0 n && ltb n (2 ^ 31)

-- Subtraction on a LONG.
abbrev pub minus : ℕ → ℕ → ℕ
minus a b = (a + 2 ^ 32 - b) % 2 ^ 32

-- ObRemoveObject.
unfoldable pub remove_object : ℕ → Objects → Outcome Objects
remove_object o s = do
  let h = s.header o
  assert (h.ref_count == 0)
  assert (h.open_handle_count == 0)
  assert (not h.permanent)
  ok (set_header o (record h { valid = false }) s)

-- What ObCloseObject takes off the counts.
abbrev pub uncount : ℕ → Header → Header
uncount handle_count h =
    if handle_count != 0
    then record h {
      open_handle_count = minus h.open_handle_count handle_count;
      ref_count = minus h.ref_count handle_count;
    }
    else record h { ref_count = minus h.ref_count 1 }

-- ObCloseObject.
unfoldable pub close_object : ℕ → ℕ → Objects → Outcome Objects
close_object o handle_count s = do
  let h = s.header o
  assert (is_positive h.ref_count)
  if h.permanent then (do assert h.named; ok s) else (do
    let s1 = set_header o (uncount handle_count h) s
    if is_positive (s1.header o).ref_count then ok s1 else remove_object o s1)

-- ObDereferenceObject.
unfoldable pub dereference_object : ℕ → Objects → Outcome Objects
dereference_object o s = do assert (s.header o).valid; close_object o 0 s

-- ObReferenceObject.
unfoldable pub reference_object : ℕ → Objects → Outcome Objects
reference_object o s = do
  let h = s.header o
  assert (leb s.current_irql dispatch_level)
  assert (h.ref_count != 0)
  assert h.valid
  ok (set_header o (record h { ref_count = (h.ref_count + 1) % 2 ^ 32 }) s)

-- ObIncrementHandleCount.
unfoldable pub increment_handle_count : ℕ → Objects → Outcome Objects
increment_handle_count o s = do
  let h = s.header o
  assert (leb s.current_irql dispatch_level)
  assert (is_positive h.ref_count)
  ok (set_header o (record h { open_handle_count = (h.open_handle_count + 1) % 2 ^ 32 }) s)

-- ObIsObjectInheritable.
unfoldable pub is_object_inheritable : ℕ → Objects → Outcome Bool
is_object_inheritable o s = do assert (s.header o).valid; ok (s.header o).inherit

-- ObReferenceObjectByPointer.
unfoldable pub reference_object_by_pointer : ℕ → ℕ → Objects → Outcome Objects
reference_object_by_pointer o object_type s = do
  assert (leb s.current_irql dispatch_level)
  assert ((s.header o).object_type == object_type)
  assert ((s.header o).ref_count != 0)
  reference_object o s
