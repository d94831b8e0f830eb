-- ===== src/KList/Refine.antt =====
-- The macros refine the operations on lists of elements.
use kaush_os.Base.{
  ℕ, zero, suc, ◌+◌, ◌^◌, ◌<◌, ◌≡◌, refl, ◌≢◌, ap, subst, true, false, List, [], ◌∷◌, ◌++◌, arith,
  length, length-append, ◌∉◌, Distinct, has-append, Distinct-snoc, ◌∙◌,
}
use kaush_os.Base.Outcome.{Returns, returns}
use kaush_os.KList.{
  Links, KList, null, list_init, list_empty, list_next, insert_before, insert_after, insert_head,
  insert_tail, foreach,
}
use kaush_os.KList.Ring.{Leads, last_of, last_of-mem, Leads-split, prev-last_of}
use kaush_os.KList.Insert.{insert_before-Inserted, Leads-Inserted}

abbrev pub Ring : Links → List ℕ → Type 0
Ring l [] = Unit {0}
Ring l (x ∷ xs) = Leads l x xs x

abbrev pub first_of : List ℕ → ℕ
first_of [] = null
first_of (x ∷ xs) = x

-- The list in memory stands for the elements `xs`, in order.
pub record IsList (l : KList) (xs : List ℕ) : Type 0 where
  pub first : l.lh_first ≡ first_of xs
  pub count : l.number_of_elements ≡ length xs
  pub ring : Ring l.links xs
  pub distinct : Distinct xs
  pub not_null : null ∉ xs

pub list_init-IsList : (k : Links) → IsList (list_init k) []
unfolding list_init
list_init-IsList k = record {
  first = refl;
  count = refl;
  ring = tt;
  distinct = tt;
  not_null = refl;
}

next-prev : (l : Links) (a z : ℕ) (xs : List ℕ) → Leads l a xs z → l.le_next (l.le_prev z) ≡ z
next-prev l a z [] h = rw h.1 h.0
next-prev l a z (x ∷ xs) h = next-prev l x z xs h.1

pub list_empty-nil : {l : KList} → IsList l [] → list_empty l ≡ true
unfolding list_empty
list_empty-nil is = rw is.first

pub list_empty-cons : {l : KList} {x : ℕ} {xs : List ℕ} → IsList l (x ∷ xs) → list_empty l ≡ false
unfolding list_empty
list_empty-cons is = rw is.first (ground (arith, is.not_null))

insert_head-nil :
    {l : KList} (e : ℕ)
    → IsList l []
    → e ≢ null
    → Returns (λ g. IsList g (e ∷ [])) (insert_head e l)
unfolding insert_head
insert_head-nil {l} e is h =
    rw (list_empty-nil is, is.count)
      (returns (record {
        first = refl;
        count = ground arith;
        ring = ground arith;
        distinct = ground arith;
        not_null = ground arith;
      }))

-- The links after an insertion before the first element.
insert_before-Leads :
    {l : KList} (x : ℕ) (xs : List ℕ) (e : ℕ)
    → IsList l (x ∷ xs)
    → e ∉ x ∷ xs
    → Leads (insert_before (λ h. h.lh_first) e l).links x (xs ++ e ∷ []) x
insert_before-Leads {l} x xs e is new =
    let p = prev-last_of l.links x x xs is.ring in
    Leads-Inserted x xs
      (insert_before-Inserted e x (last_of x xs) l is.first p
        (subst (λ t. l.links.le_next t ≡ x) p (next-prev l.links x x xs is.ring))
        (ground (arith, last_of-mem x xs)) (ground arith))
      is.ring refl is.distinct.0 is.distinct.1 new is.distinct.0

insert_before-first :
    (l : KList) (e : ℕ) → (insert_before (λ h. h.lh_first) e l).lh_first ≡ l.lh_first
unfolding insert_before insert_after
insert_before-first l e = refl

insert_before-count :
    {l : KList} (xs : List ℕ) (e : ℕ)
    → IsList l xs
    → length xs + 1 < 2 ^ 32
    → (insert_before (λ h. h.lh_first) e l).number_of_elements ≡ length xs + 1
unfolding insert_before insert_after
insert_before-count {l} xs e is bound = omega (arith, is.count)

-- LIST_INSERT_TAIL of a new element that is not NULL passes its assertion and appends the element,
-- on any list with room for one more in the 32-bit count.
pub insert_tail-append :
    {l : KList} (xs : List ℕ) (e : ℕ)
    → IsList l xs
    → e ∉ xs
    → e ≢ null
    → length xs + 1 < 2 ^ 32
    → Returns (λ g. IsList g (xs ++ e ∷ [])) (insert_tail e l)
unfolding insert_tail
insert_tail-append {l} [] e is new h bound = rw (list_empty-nil is) (insert_head-nil e is h)
insert_tail-append {l} (x ∷ xs) e is new h bound = rw (list_empty-cons is) (
    returns (record {
      first = insert_before-first l e ∙ is.first;
      count = omega (arith, insert_before-count (x ∷ xs) e is, length-append xs (e ∷ []));
      ring = insert_before-Leads x xs e is new;
      distinct = Distinct-snoc (x ∷ xs) e is.distinct new;
      not_null = ground (arith, has-append null xs (e ∷ []), is.not_null);
    }))

-- LIST_INSERT_HEAD of a new element that is not NULL passes its assertion and puts the element in
-- front, on any list with room for one more in the 32-bit count.
pub insert_head-cons :
    {l : KList} (xs : List ℕ) (e : ℕ)
    → IsList l xs
    → e ∉ xs
    → e ≢ null
    → length xs + 1 < 2 ^ 32
    → Returns (λ g. IsList g (e ∷ xs)) (insert_head e l)
unfolding insert_head
insert_head-cons {l} [] e is new h bound = insert_head-nil e is h
insert_head-cons {l} (x ∷ xs) e is new h bound = rw (list_empty-cons is) (
    let (q, r) =
      Leads-split (insert_before (λ t. t.lh_first) e l).links x e x xs []
        (insert_before-Leads x xs e is new) in
    returns (record {
      first = refl;
      count = omega (arith, insert_before-count (x ∷ xs) e is);
      ring = (r, q);
      distinct = (new, is.distinct);
      not_null = ground (arith, is.not_null);
    }))

foreach-from :
    (k : ℕ) (l : KList) (x a : ℕ) (xs : List ℕ)
    → l.lh_first ≡ x
    → Leads l.links a xs x
    → null ∉ a ∷ xs
    → x ∉ xs
    → length xs + 1 < k
    → foreach k l a ≡ a ∷ xs
unfolding foreach list_next
foreach-from zero l x a xs f h z d b = absurd (omega (arith, b))
foreach-from (suc zero) l x a xs f h z d b = absurd (omega (arith, b))
foreach-from (suc (suc k)) l x a [] f h z d b = ground (arith, h.0)
foreach-from (suc (suc k)) l x a (y ∷ xs) f h z d b =
    ground (arith, h.0.0, foreach-from (suc k) l x y xs f h.1)

-- LIST_FOREACH from the first element visits the elements of the list once each, in order, and ends
-- after that many steps.
pub foreach-elements :
    (k : ℕ) {l : KList} (xs : List ℕ) → IsList l xs → length xs < k → foreach k l l.lh_first ≡ xs
unfolding foreach
foreach-elements zero {l} xs is b = absurd (omega (arith, b))
foreach-elements (suc k) {l} [] is b = ground (arith, is.first)
foreach-elements (suc k) {l} (x ∷ xs) is b =
    ap (foreach (suc k) l) is.first
    ∙ foreach-from (suc k) l x x xs is.first is.ring is.not_null is.distinct.0 (omega (arith, b))
