-- ===== src/DataStore/Raw/Conserves.antt =====
-- Memory given to a `data_store_raw` is freed once.
use liburing_server.Prelude.{
  ℕ, zero, suc, ◌+◌, ◌<◌, ◌≡◌, refl, sym, ap, ◌∙◌, arith, true, false_ne_true, List, [], ◌∷◌, ◌++◌,
  length, get_elem?, get_elem?-set_self, get_elem?-set_ne, get_elem?-some_of_lt,
  get_elem?-append_right, set, Option, none, some, Outcome, ok, undefined, thrown, stuck, ◌>>=◌,
  if◌then◌else◌, ◌==◌, ℤ, pos, negsuc, decrement, equals, has, has-insert, has-erase, insert,
  Bool-cases, inl, inr, ==_iff, eq→==,
}
use mathlib.Core.Path.{subst}
use liburing_server.DataStore.{HashOrder}
use liburing_server.DataStore.Raw.{
  RawStore, new_raw, free_raw_item, take_raw_index, insert_raw_item, allocate_item,
}

pub data RawCall : Type 0 where
  frees : (idx : ℕ) → RawCall
  inserts : (ptr : Option ℕ) (uses : ℕ) → RawCall
  allocates : (ptr : Option ℕ) (uses : ℕ) → RawCall

-- A call on a store, where the index of a free is inside.
unfoldable pub call : HashOrder → RawCall → RawStore → Outcome RawStore
call order (frees idx) s = free_raw_item s idx
call order (inserts ptr uses) s = ok (insert_raw_item order s ptr uses).1
call order (allocates ptr uses) s = ok (allocate_item order s ptr uses).1

unfoldable pub call_all : HashOrder → List RawCall → RawStore → Outcome RawStore
call_all order [] s = ok s
call_all order (c ∷ cs) s = call order c s >>= call_all order cs

abbrev pub state_or : RawStore → Outcome RawStore → RawStore
state_or s (ok t) = t
state_or s undefined = s
state_or s thrown = s
state_or s stuck = s

abbrev pub IsInside : RawCall → RawStore → Type 0
IsInside (frees idx) s = idx < length s.data_vec
IsInside (inserts ptr uses) s = Unit {0}
IsInside (allocates ptr uses) s = Unit {0}

abbrev pub AreInside : HashOrder → List RawCall → RawStore → Type 0
AreInside order [] s = Unit {0}
AreInside order (c ∷ cs) s = IsInside c s × AreInside order cs (state_or s (call order c s))

-- How often an address is among some pointers, in the slots of a store, and given by some calls.
abbrev pub is_at : ℕ → Option ℕ → ℕ
is_at a none = 0
is_at a (some b) = if b == a then 1 else 0

abbrev pub count : ℕ → List (Option ℕ) → ℕ
count a [] = 0
count a (ptr ∷ ptrs) = is_at a ptr + count a ptrs

abbrev pub slots_with : ℕ → List (Option ℕ × ℤ) → ℕ
slots_with a [] = 0
slots_with a ((ptr, uses) ∷ slots) = is_at a ptr + slots_with a slots

abbrev pub given_by : ℕ → RawCall → ℕ
given_by a (frees idx) = 0
given_by a (inserts ptr uses) = is_at a ptr
given_by a (allocates ptr uses) = is_at a ptr

abbrev pub given : ℕ → List RawCall → ℕ
given a [] = 0
given a (c ∷ cs) = given_by a c + given a cs

-- A free slot holds no pointer.
IsTidy : RawStore → Type 0
IsTidy s =
    (i : ℕ) → has i s.free_idxs ≡ true → (uses : ℤ) × (get_elem? s.data_vec i ≡ some (none, uses))

slots_with-set :
    (a : ℕ) (slots : List (Option ℕ × ℤ)) (i : ℕ) (ptr ptr' : Option ℕ) (uses uses' : ℤ)
    → get_elem? slots i ≡ some (ptr, uses)
    → slots_with a (set slots i (ptr', uses')) + is_at a ptr ≡ slots_with a slots + is_at a ptr'
slots_with-set a [] i ptr ptr' uses uses' e = cc
slots_with-set a ((q, n) ∷ slots) zero ptr ptr' uses uses' e =
    let same : q ≡ ptr = ap (λ o. elim o [ none ↦ q | some v ↦ v.0 ]) e in rw same (omega arith)
slots_with-set a ((q, n) ∷ slots) (suc i) ptr ptr' uses uses' e =
    omega (arith, slots_with-set a slots i ptr ptr' uses uses' e)

slots_with-append :
    (a : ℕ) (xs ys : List (Option ℕ × ℤ))
    → slots_with a (xs ++ ys) ≡ slots_with a xs + slots_with a ys
slots_with-append a [] ys = omega arith
slots_with-append a ((q, n) ∷ xs) ys = omega (arith, slots_with-append a xs ys)

-- What a call does to an address: what the store holds and what has been freed is what was given.
Conserves : RawStore → RawStore → RawCall → Type 0
Conserves s t c =
    (a : ℕ)
    → slots_with a t.data_vec + count a t.freed
      ≡ given_by a c + (slots_with a s.data_vec + count a s.freed)

free_raw_item-Conserves :
    (s : RawStore) (idx : ℕ)
    → IsTidy s
    → idx < length s.data_vec
    → (t : RawStore) × (free_raw_item s idx ≡ ok t) × IsTidy t × Conserves s t (frees idx)
unfolding free_raw_item IsTidy Conserves
free_raw_item-Conserves s idx tidy inside =
    let ((ptr, uses), at) = get_elem?-some_of_lt s.data_vec idx inside in
    elim (Bool-cases (equals (decrement uses) 0)) [
      | inl last ↦ (
        record {
          data_vec = set s.data_vec idx (none, negsuc 0);
          free_idxs = insert idx s.free_idxs;
          freed = ptr ∷ s.freed;
        },
        rw (at, last) refl,
        λ i m. elim (Bool-cases (idx == i)) [
          | inl hit ↦
              let same = (==_iff idx i).0 hit in
              (
                negsuc 0,
                ap (get_elem? (set s.data_vec idx (none, negsuc 0))) (sym same)
                    ∙ get_elem?-set_self s.data_vec idx (none, negsuc 0) inside,
              )
          | inr miss ↦
              let (n, e) = tidy i (sym (rw miss refl) ∙ sym (has-insert idx i s.free_idxs) ∙ m) in
              (
                n,
                get_elem?-set_ne s.data_vec idx i (none, negsuc 0)
                      (λ same. false_ne_true (sym miss ∙ eq→== idx i same))
                    ∙ e,
              )
        ],
        λ a. omega (arith, slots_with-set a s.data_vec idx ptr none uses (negsuc 0) at),
      )
      | inr more ↦ (
        record s { data_vec = set s.data_vec idx (ptr, decrement uses) },
        rw (at, more) refl,
        λ i m. elim (Bool-cases (idx == i)) [
          | inl hit ↦
              let same = (==_iff idx i).0 hit in
              let (n, e) = tidy i m in
              let null : ptr ≡ none =
                ap (λ o. elim o [ none ↦ ptr | some v ↦ v.0 ])
                  (sym at ∙ ap (get_elem? s.data_vec) same ∙ e) in
              (
                decrement uses,
                ap (get_elem? (set s.data_vec idx (ptr, decrement uses))) (sym same)
                    ∙ get_elem?-set_self s.data_vec idx (ptr, decrement uses) inside
                    ∙ ap (λ q. some (q, decrement uses)) null,
              )
          | inr miss ↦
              let (n, e) = tidy i m in
              (
                n,
                get_elem?-set_ne s.data_vec idx i (ptr, decrement uses)
                      (λ same. false_ne_true (sym miss ∙ eq→== idx i same))
                    ∙ e,
              )
        ],
        λ a. omega (arith, slots_with-set a s.data_vec idx ptr ptr uses (decrement uses) at),
      )
    ]

insert_raw_item-Conserves :
    (order : HashOrder) (s : RawStore) (ptr : Option ℕ) (uses : ℕ)
    → IsTidy s
    → let t = (insert_raw_item order s ptr uses).1 in IsTidy t × Conserves s t (inserts ptr uses)
unfolding insert_raw_item take_raw_index IsTidy Conserves
insert_raw_item-Conserves order s ptr uses tidy = of_free s.free_idxs tidy
  where
    of_free :
        (free : List ℕ)
        → ((i : ℕ) → has i free ≡ true → (n : ℤ) × (get_elem? s.data_vec i ≡ some (none, n)))
        → let (idx, t) = take_raw_index order s free in
          let u = record t { data_vec = set t.data_vec idx (ptr, pos uses) } in
          ((i : ℕ) → has i u.free_idxs ≡ true → (n : ℤ) × (get_elem? u.data_vec i ≡ some (none, n)))
          × ((a : ℕ)
              → slots_with a u.data_vec + count a u.freed
                ≡ is_at a ptr + (slots_with a s.data_vec + count a s.freed))
    of_free [] tidy = (
      λ i m. absurd (false_ne_true m),
      λ a. omega (
        arith,
        slots_with-append a s.data_vec ((none, pos 0) ∷ []),
        slots_with-set a (s.data_vec ++ ((none, pos 0) ∷ [])) (length s.data_vec) none ptr (pos 0)
            (pos uses)
            (get_elem?-append_right s.data_vec ((none, pos 0) ∷ []) (length s.data_vec) 0
              (omega arith)),
      ),
    )
    of_free (x ∷ xs) tidy =
        let idx = order.first x xs in
        let (n, at) = tidy idx (order.first-mem x xs) in
        (
          λ i m. elim (Bool-cases (idx == i)) [
            | inl hit ↦
                absurd (false_ne_true (sym (rw hit refl) ∙ sym (has-erase idx i (x ∷ xs)) ∙ m))
            | inr miss ↦
                let (k, e) = tidy i (sym (rw miss refl) ∙ sym (has-erase idx i (x ∷ xs)) ∙ m) in
                (
                  k,
                  get_elem?-set_ne s.data_vec idx i (ptr, pos uses)
                        (λ same. false_ne_true (sym miss ∙ eq→== idx i same))
                      ∙ e,
                )
          ],
          λ a. omega (arith, slots_with-set a s.data_vec idx none ptr n (pos uses) at),
        )

call-Conserves :
    (order : HashOrder) (c : RawCall) (s : RawStore)
    → IsTidy s
    → IsInside c s
    → (t : RawStore) × (call order c s ≡ ok t) × IsTidy t × Conserves s t c
unfolding call allocate_item insert_raw_item Conserves
call-Conserves order (frees idx) s tidy inside = free_raw_item-Conserves s idx tidy inside
call-Conserves order (inserts ptr uses) s tidy inside =
    let (tidy', kept) = insert_raw_item-Conserves order s ptr uses tidy in
    ((insert_raw_item order s ptr uses).1, refl, tidy', kept)
call-Conserves order (allocates ptr uses) s tidy inside =
    let (tidy', kept) = insert_raw_item-Conserves order s ptr uses tidy in
    ((insert_raw_item order s ptr uses).1, refl, tidy', kept)

calls-Conserves :
    (order : HashOrder) (cs : List RawCall) (s : RawStore)
    → IsTidy s
    → AreInside order cs s
    → (t : RawStore) × (call_all order cs s ≡ ok t)
      × ((a : ℕ)
          → slots_with a t.data_vec + count a t.freed
            ≡ given a cs + (slots_with a s.data_vec + count a s.freed))
unfolding call_all Conserves
calls-Conserves order [] s tidy inside = (s, refl, λ a. omega arith)
calls-Conserves order (c ∷ cs) s tidy (here, inside) =
    let (t, ran, tidy', kept) = call-Conserves order c s tidy here in
    let (u, ran', kept') =
      calls-Conserves order cs t tidy' (subst (AreInside order cs) (ap (state_or s) ran) inside) in
    (u, rw ran ran', λ a. omega (arith, kept a, kept' a))

-- After any calls of data_store_raw on a new store, with the index of every free inside the store
-- at the time, the code has returned each time, and every address is in the slots of the store
-- and among what has been given to free, together, as often as the calls have given it: memory
-- that is given once is freed once at most, and not kept in the store then.
pub call_all-given :
    (order : HashOrder) (cs : List RawCall)
    → AreInside order cs new_raw
    → (t : RawStore) × (call_all order cs new_raw ≡ ok t)
      × ((a : ℕ) → slots_with a t.data_vec + count a t.freed ≡ given a cs)
unfolding IsTidy
call_all-given order cs inside =
    let (t, ran, kept) =
      calls-Conserves order cs new_raw (λ i m. absurd (false_ne_true m)) inside in
    (t, ran, λ a. omega (arith, kept a))
