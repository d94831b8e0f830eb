-- ===== src/KList.antt =====
-- KaushOS/inc/list.h: the intrusive, circular, doubly linked list KLIST_ENTRY and LIST_HEAD.
-- The links of all elements are one pair of functions from addresses; NULL is 0.
pub mod Ring
pub mod Insert
pub mod Unlink
pub mod Refine
pub mod Remove
mod Examples
use kaush_os.Base.{ℕ, zero, suc, List, [], ◌∷◌, ◌+◌, ◌-◌, ◌%◌, ◌^◌, Bool, ◌==◌, if◌then◌else◌}
use kaush_os.Base.Outcome.{Outcome, ok, bug_check, assert, ◌>>=◌, ◌>>◌}

abbrev pub null : ℕ
null = 0

-- KLIST_ENTRY of every element: le_next and le_prev.
pub record Links : Type 0 where
  pub le_next : ℕ → ℕ
  pub le_prev : ℕ → ℕ

-- LIST_HEAD, with the links that its elements hold.
pub record KList : Type 0 where
  pub lh_first : ℕ
  pub number_of_elements : ℕ
  pub links : Links
  pub open links use *

abbrev pub update : (ℕ → ℕ) → ℕ → ℕ → ℕ → ℕ
update f p v q = if q == p then v else f q

abbrev pub set_next : ℕ → ℕ → KList → KList
set_next p v l = record l { links = record { le_next = update l.le_next p v; le_prev = l.le_prev } }

abbrev pub set_prev : ℕ → ℕ → KList → KList
set_prev p v l = record l { links = record { le_next = l.le_next; le_prev = update l.le_prev p v } }

abbrev pub set_first : ℕ → KList → KList
set_first v l = record l { lh_first = v }

-- NumberOfElements is a ULONG.
abbrev pub incr_count : KList → KList
incr_count l = record l { number_of_elements = (l.number_of_elements + 1) % 2 ^ 32 }

abbrev pub decr_count : KList → KList
decr_count l = record l { number_of_elements = (l.number_of_elements + 2 ^ 32 - 1) % 2 ^ 32 }

pub list_init : Links → KList
list_init links = record { lh_first = null; number_of_elements = 0; links = links }

pub list_empty : KList → Bool
list_empty l = l.lh_first == null

pub list_last : KList → ℕ
list_last l = if list_empty l then null else l.le_prev l.lh_first

pub list_next : KList → ℕ → ℕ
list_next l elm = if l.le_next elm == l.lh_first then null else l.le_next elm

pub list_prev : KList → ℕ → ℕ
list_prev l elm = if l.le_prev elm == list_last l then null else l.le_prev elm

-- The macro's argument `listelm` is an expression that each statement evaluates anew.
pub insert_after : (KList → ℕ) → ℕ → KList → KList
insert_after listelm elm l =
    let l1 = set_next elm (l.le_next (listelm l)) l in
    let l2 = set_next (listelm l1) elm l1 in
    let l3 = set_prev elm (listelm l2) l2 in
    let l4 = set_prev (l3.le_next elm) elm l3 in incr_count l4

pub insert_before : (KList → ℕ) → ℕ → KList → KList
insert_before listelm elm = insert_after (λ l. l.le_prev (listelm l)) elm

pub insert_head : ℕ → KList → Outcome KList
insert_head elm l =
    if list_empty l
    then (do
      let l1 = set_next elm elm (set_prev elm elm (set_first elm l))
      assert (l1.number_of_elements == 0)
      ok (incr_count l1))
    else ok (set_first elm (insert_before (λ h. h.lh_first) elm l))

pub insert_tail : ℕ → KList → Outcome KList
insert_tail elm l =
    if list_empty l then insert_head elm l else ok (insert_before (λ h. h.lh_first) elm l)

-- LIST_NEXT and the two unlinking statements read the links as the statements before left them.
pub remove : ℕ → KList → KList
remove elm l =
    let l1 = if elm == l.lh_first then set_first (list_next l elm) l else l in
    let l2 = set_next (l1.le_prev elm) (l1.le_next elm) l1 in
    let l3 = set_prev (l2.le_next elm) (l2.le_prev elm) l2 in decr_count l3

-- The second part is the element, or NULL.
pub remove_head : KList → KList × ℕ
remove_head l = if list_empty l then (l, null) else (remove l.lh_first l, l.lh_first)

pub remove_tail : KList → KList × ℕ
remove_tail l = if list_empty l then (l, null) else (remove (list_last l) l, list_last l)

-- LIST_FOREACH: the elements that the loop visits, in order, on fuel.
pub foreach : ℕ → KList → ℕ → List ℕ
foreach zero l elm = []
foreach (suc k) l elm =
    let rest = foreach k l (list_next l elm) in if elm == null then [] else elm ∷ rest
