-- ===== src/Cache/Linked.antt =====
-- The doubly linked list of the slots of a cache: `next_item_idx` and `prev_item_idx`.
use liburing_server.Prelude.{
  ℕ, ◌≡◌, ◌≢◌, refl, sym, ap, ◌∙◌, arith, true, false, List, [], ◌∷◌, ◌++◌, Option, some, has,
  IsSetList, eq→==, ne→not-==,
}
use liburing_server.Cache.{CacheItem, set_item, set_next, set_prev}

-- The first slot of a list, and the last; with nothing in it, the slot behind it or before it.
abbrev pub front_of : List ℕ → Option ℕ → Option ℕ
front_of [] n = n
front_of (x ∷ xs) n = some x

abbrev pub back_of : Option ℕ → List ℕ → Option ℕ
back_of p [] = p
back_of p (x ∷ xs) = back_of (some x) xs

-- The slots are linked in this order, behind `p` and before `n`.
abbrev pub Linked : (ℕ → CacheItem) → Option ℕ → List ℕ → Option ℕ → Type 0
Linked buf p [] n = Unit {0}
Linked buf p (x ∷ xs) n =
    ((buf x).prev_item_idx ≡ p) × ((buf x).next_item_idx ≡ front_of xs n) × Linked buf (some x) xs n

abbrev pub SameLinks : CacheItem → CacheItem → Type 0
SameLinks a b = (b.prev_item_idx ≡ a.prev_item_idx) × (b.next_item_idx ≡ a.next_item_idx)

pub Linked-frame :
    (buf buf' : ℕ → CacheItem) (p : Option ℕ) (xs : List ℕ) (n : Option ℕ)
    → ((i : ℕ) → has i xs ≡ true → SameLinks (buf i) (buf' i))
    → Linked buf p xs n
    → Linked buf' p xs n
Linked-frame buf buf' p [] n same h = tt
Linked-frame buf buf' p (x ∷ xs) n same (prev, next, h) =
    let (prev', next') = same x (ground arith) in
    (
      prev' ∙ prev,
      next' ∙ next,
      Linked-frame buf buf' (some x) xs n (λ i m. same i (ground arith)) h,
    )

-- A slot elsewhere may change.
pub Linked-outside :
    (buf : ℕ → CacheItem) (i : ℕ) (item : CacheItem) (p : Option ℕ) (xs : List ℕ) (n : Option ℕ)
    → has i xs ≡ false
    → Linked buf p xs n
    → Linked (set_item buf i item) p xs n
Linked-outside buf i item p xs n out h =
    Linked-frame buf (set_item buf i item) p xs n (λ j m. elsewhere j (λ e. differ j m e)) h
  where
    differ : (j : ℕ) → has j xs ≡ true → i ≡ j → ⊥
    differ j m e = ground arith

    elsewhere : (j : ℕ) → i ≢ j → SameLinks (buf j) (set_item buf i item j)
    elsewhere j ne = rw (ne→not-== i j ne) (refl, refl)

pub front_of-append :
    (xs ys : List ℕ) (n : Option ℕ) → front_of (xs ++ ys) n ≡ front_of xs (front_of ys n)
front_of-append [] ys n = refl
front_of-append (x ∷ xs) ys n = refl

pub back_of-append :
    (p : Option ℕ) (xs ys : List ℕ) → back_of p (xs ++ ys) ≡ back_of (back_of p xs) ys
back_of-append p [] ys = refl
back_of-append p (x ∷ xs) ys = back_of-append (some x) xs ys

pub Linked-append :
    (buf : ℕ → CacheItem) (p : Option ℕ) (xs ys : List ℕ) (n : Option ℕ)
    → Linked buf p xs (front_of ys n)
    → Linked buf (back_of p xs) ys n
    → Linked buf p (xs ++ ys) n
Linked-append buf p [] ys n h g = g
Linked-append buf p (x ∷ xs) ys n (prev, next, h) g =
    (prev, next ∙ sym (front_of-append xs ys n), Linked-append buf (some x) xs ys n h g)

pub Linked-parts :
    (buf : ℕ → CacheItem) (p : Option ℕ) (xs ys : List ℕ) (n : Option ℕ)
    → Linked buf p (xs ++ ys) n
    → Linked buf p xs (front_of ys n) × Linked buf (back_of p xs) ys n
Linked-parts buf p [] ys n h = (tt, h)
Linked-parts buf p (x ∷ xs) ys n (prev, next, h) =
    let (g, g') = Linked-parts buf (some x) xs ys n h in
    ((prev, next ∙ front_of-append xs ys n, g), g')

-- The last slot gets another one behind it.
pub Linked-set_next :
    (buf : ℕ → CacheItem) (p : Option ℕ) (x : ℕ) (xs : List ℕ) (n m : Option ℕ) (h : ℕ)
    → IsSetList (x ∷ xs)
    → back_of (some x) xs ≡ some h
    → Linked buf p (x ∷ xs) n
    → Linked (set_next buf h m) p (x ∷ xs) m
Linked-set_next buf p x [] n m h unique last (prev, next, l) =
    rw (eq→== h x (some-injective last))
      (ap (λ k. (buf k).prev_item_idx) (some-injective last) ∙ prev, refl, tt)
  where
    some-injective : some x ≡ some h → h ≡ x
    some-injective e = cc
Linked-set_next buf p x (y ∷ ys) n m h (out, unique) last (prev, next, l) =
    let apart : h ≢ x = λ e. ground (arith, back_in y ys last) in
    rw (ne→not-== h x apart) (prev, next, Linked-set_next buf (some x) y ys n m h unique last l)
  where
    back_in : (y : ℕ) (ys : List ℕ) → back_of (some y) ys ≡ some h → has h (y ∷ ys) ≡ true
    back_in y [] e = ground arith
    back_in y (z ∷ zs) e = ground (arith, back_in z zs e)

-- The first slot gets another one before it.
pub Linked-set_prev :
    (buf : ℕ → CacheItem) (p q : Option ℕ) (x : ℕ) (xs : List ℕ) (n : Option ℕ)
    → has x xs ≡ false
    → Linked buf p (x ∷ xs) n
    → Linked (set_prev buf x q) q (x ∷ xs) n
Linked-set_prev buf p q x xs n out (prev, next, l) = (
  rw (eq→== x x refl) refl,
  rw (eq→== x x refl) next,
  Linked-outside buf x (record (buf x) { prev_item_idx = q }) (some x) xs n out l,
)
