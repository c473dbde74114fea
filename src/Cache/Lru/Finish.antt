-- ===== src/Cache/Lru/Finish.antt =====
-- `finished_with_item` on the list of the files of the cache.
use liburing_server.Prelude.{
  false_ne_true, ℕ, suc, ◌≡◌, refl, sym, ap, ◌∙◌, arith, true, false, List, [], ◌∷◌, length, none,
  some, ok, if◌then◌else◌, ◌==◌, lt→ltb, decrement, has, same_bytes, IsSetList, All, Bool-cases,
  inl, inr, ==_iff,
}
use mathlib.Core.Path.{subst}
use liburing_server.Cache.{Cache, TcpClient, set_item, finished_with_item}
use liburing_server.Cache.Linked.{Linked, SameLinks, Linked-frame, front_of, back_of}
use liburing_server.Cache.Lru.{
  Entry, slots_of, slot_of, unlocked, Holds, IsBlank, DistinctPaths, Represents,
}
use liburing_server.Cache.Lru.Moves.{inside_of}
use liburing_server.Cache.Lru.Fetch.{slots_inside}

pub slots_of-unlocked : (i : ℕ) (es : List Entry) → slots_of (unlocked i es) ≡ slots_of es
slots_of-unlocked i [] = refl
slots_of-unlocked i (e ∷ es) = ap (◌∷◌ e.slot) (slots_of-unlocked i es)

slot_of-unlocked : (p : List ℕ) (i : ℕ) (es : List Entry) → slot_of p (unlocked i es) ≡ slot_of p es
slot_of-unlocked p i [] = refl
slot_of-unlocked p i (e ∷ es) = elim (Bool-cases (same_bytes e.filepath p)) [
  | inl hit ↦ rw hit refl
  | inr miss ↦ rw miss (slot_of-unlocked p i es)
]

length-unlocked : (i : ℕ) (es : List Entry) → length (unlocked i es) ≡ length es
length-unlocked i [] = refl
length-unlocked i (e ∷ es) = ap suc (length-unlocked i es)

DistinctPaths-unlocked :
    (i : ℕ) (es : List Entry) → DistinctPaths es → DistinctPaths (unlocked i es)
DistinctPaths-unlocked i [] h = tt
DistinctPaths-unlocked i (e ∷ es) (out, h) =
    (slot_of-unlocked e.filepath i es ∙ out, DistinctPaths-unlocked i es h)

module _ (c : Cache) (i : ℕ) where
  abbrev pub with_unlock : Cache
  with_unlock = record c {
    cache_buffer =
        set_item c.cache_buffer i
          (record (c.cache_buffer i) { lock_number = decrement (c.cache_buffer i).lock_number });
  }

  unlock-SameLinks : (j : ℕ) → SameLinks (c.cache_buffer j) (with_unlock.cache_buffer j)
  unlock-SameLinks j = elim (Bool-cases (i == j)) [
    | inl hit ↦
        let e = (==_iff i j).0 hit in
        rw hit (
          ap (λ k. (c.cache_buffer k).prev_item_idx) e,
          ap (λ k. (c.cache_buffer k).next_item_idx) e,
        )
    | inr miss ↦ rw miss (refl, refl)
  ]

  turned : (j : ℕ) → (j == i) ≡ (i == j)
  turned j = ground arith

  Holds-unlock :
      (e : Entry)
      → Holds c e
      → Holds with_unlock (record e { locks = if e.slot == i then decrement e.locks else e.locks })
  Holds-unlock e (inside, used, bytes, locks, fresh, path) = elim (Bool-cases (i == e.slot)) [
    | inl hit ↦
        let same = (==_iff i e.slot).0 hit in
        (
          inside,
          used,
          rw hit (ap (λ k. (c.cache_buffer k).buffer) same ∙ bytes),
          rw (turned e.slot, hit)
              (ap decrement (ap (λ k. (c.cache_buffer k).lock_number) same ∙ locks)),
          rw hit (ap (λ k. (c.cache_buffer k).outdated) same ∙ fresh),
          path,
        )
    | inr miss ↦ (inside, used, rw miss bytes, rw (turned e.slot, miss) locks, rw miss fresh, path)
  ]

  held_unlock : (es : List Entry) → All (Holds c) es → All (Holds with_unlock) (unlocked i es)
  held_unlock [] h = tt
  held_unlock (e ∷ es) (here, h) = (Holds-unlock e here, held_unlock es h)

  unlock-Represents :
      (es : List Entry)
      → has i c.free_idxs ≡ false
      → Represents c es
      → Represents with_unlock (unlocked i es)
  unlock-Represents es used r =
      let same = sym (slots_of-unlocked i es) in
      record {
        linked =
            subst (λ k. Linked with_unlock.cache_buffer none k none) same
              (Linked-frame c.cache_buffer with_unlock.cache_buffer none (slots_of es) none
                (λ j m. unlock-SameLinks j) r.linked);
        lowest = r.lowest ∙ ap (λ k. front_of k none) same;
        highest = r.highest ∙ ap (back_of none) same;
        distinct = subst IsSetList same r.distinct;
        paths = λ p. r.paths p ∙ sym (slot_of-unlocked p i es);
        once = DistinctPaths-unlocked i es r.once;
        held = held_unlock es r.held;
        free = λ j m. blank_unlock j m (r.free j m);
        unique = r.unique;
        all = omega (arith, r.all, length-unlocked i es);
      }
    where
      blank_unlock : (j : ℕ) → has j c.free_idxs ≡ true → IsBlank c j → IsBlank with_unlock j
      blank_unlock j m (inside, locks, fresh) = elim (Bool-cases (i == j)) [
        | inl hit ↦
            absurd (false_ne_true (sym used ∙ ap (λ k. has k c.free_idxs) ((==_iff i j).0 hit) ∙ m))
        | inr miss ↦ (inside, rw miss locks, rw miss fresh)
      ]

-- The slot of a file is not free.
pub used_elsewhere :
    (c : Cache) (i : ℕ) (es : List Entry)
    → has i (slots_of es) ≡ true
    → All (Holds c) es
    → has i c.free_idxs ≡ false
used_elsewhere c i [] m h = cc
used_elsewhere c i (e ∷ es) m ((inside, used, bytes, locks, fresh, path), hs) =
    elim (Bool-cases (e.slot == i)) [
      | inl hit ↦ ap (λ k. has k c.free_idxs) (sym ((==_iff e.slot i).0 hit)) ∙ used
      | inr miss ↦ used_elsewhere c i es (ground arith) hs
    ]

-- Finish.
pub finished_with_item-Represents :
    (c : Cache) (client_idx i : ℕ) (client : TcpClient) (es : List Entry)
    → Represents c es
    → client.using_file ≡ true
    → c.client_idx_to_cache_idx client_idx ≡ some i
    → has i (slots_of es) ≡ true
    → (d : Cache) × (finished_with_item c client_idx client
        ≡ ok (d, record client { using_file = false }))
      × Represents d (unlocked i es)
      × (d.free_idxs ≡ c.free_idxs)
      × (d.client_idx_to_cache_idx ≡ c.client_idx_to_cache_idx)
      × (d.slots ≡ c.slots)
unfolding finished_with_item
finished_with_item-Represents c client_idx i client es r uses mapped there = (
  with_unlock c i,
  rw
      (
        uses,
        mapped,
        lt→ltb i c.slots (inside_of c.slots (slots_of es) i (slots_inside c es r.held) there),
      )
      refl,
  unlock-Represents c i es (used_elsewhere c i es there r.held) r,
  refl,
  refl,
  refl,
)
