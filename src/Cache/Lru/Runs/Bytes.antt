-- ===== src/Cache/Lru/Runs/Bytes.antt =====
-- The bytes of a file over the requests of clients.
use liburing_server.Prelude.{
  ℕ, ◌≡◌, ◌⊎◌, refl, sym, ap, ◌∙◌, true, false_ne_true, List, [], ◌∷◌, ◌++◌, Option, none, some,
  ◌==◌, pos, equals, has, All, Bool-cases, inl, inr, ==_iff,
}
use mathlib.Core.Path.{subst}
use liburing_server.DataStore.{HashOrder}
use liburing_server.Cache.{Cache}
use liburing_server.Cache.Lru.{
  Entry, Place, find, slots_of, locked_once, fetched, inserted, replaced, unlocked, Holds,
}
use liburing_server.Cache.Lru.Paths.{Found, find-Found}
use liburing_server.Cache.Lru.Runs.{CacheRequest, fetch, store, finish, Files, answer}
use liburing_server.Cache.Lru.Runs.Locks.{Uses, AllCounted}
use liburing_server.Cache.Lru.Runs.Stored.{locked_if_used}

-- A file of the list with this slot has these bytes.
abbrev pub HasBytes : ℕ → List ℕ → List Entry → Type 0
HasBytes i b [] = ⊥
HasBytes i b (e ∷ es) = ((e.slot ≡ i) × (e.bytes ≡ b)) ⊎ HasBytes i b es

module _ (i : ℕ) (b : List ℕ) where
  HasBytes-back : (xs ys : List Entry) → HasBytes i b ys → HasBytes i b (xs ++ ys)
  HasBytes-back [] ys h = h
  HasBytes-back (x ∷ xs) ys h = inr (HasBytes-back xs ys h)

  HasBytes-front : (xs ys : List Entry) → HasBytes i b xs → HasBytes i b (xs ++ ys)
  HasBytes-front [] ys h = absurd h
  HasBytes-front (x ∷ xs) ys (inl here) = inl here
  HasBytes-front (x ∷ xs) ys (inr h) = inr (HasBytes-front xs ys h)

  HasBytes-moved :
      (xs : List Entry) (e : Entry) (ys : List Entry)
      → HasBytes i b (xs ++ (e ∷ ys))
      → HasBytes i b (xs ++ (ys ++ (locked_once e ∷ [])))
  HasBytes-moved [] e ys (inl here) = HasBytes-back ys (locked_once e ∷ []) (inl here)
  HasBytes-moved [] e ys (inr h) = HasBytes-front ys (locked_once e ∷ []) h
  HasBytes-moved (x ∷ xs) e ys (inl here) = inl here
  HasBytes-moved (x ∷ xs) e ys (inr h) = inr (HasBytes-moved xs e ys h)

  HasBytes-unlocked : (j : ℕ) (es : List Entry) → HasBytes i b es → HasBytes i b (unlocked j es)
  HasBytes-unlocked j [] h = absurd h
  HasBytes-unlocked j (e ∷ es) (inl here) = inl here
  HasBytes-unlocked j (e ∷ es) (inr h) = inr (HasBytes-unlocked j es h)

  -- The slot holds them.
  pub HasBytes-buffer :
      (c : Cache) (es : List Entry)
      → All (Holds c) es
      → HasBytes i b es
      → (c.cache_buffer i).buffer ≡ b
  HasBytes-buffer c [] held h = absurd h
  HasBytes-buffer c (e ∷ es) ((inside, used, bytes, locks, fresh, path), held) (inl (slot, same)) =
      ap (λ j. (c.cache_buffer j).buffer) (sym slot) ∙ bytes ∙ same
  HasBytes-buffer c (e ∷ es) (here, held) (inr h) = HasBytes-buffer c es held h

  fetched_kept :
      (p : List ℕ) (es : List Entry) → HasBytes i b es → HasBytes i b (fetched es (find p es)).1
  fetched_kept p es h = of_place (find p es) (find-Found p es)
    where
      of_place : (o : Option Place) → Found p es o → HasBytes i b (fetched es o).1
      of_place none f = h
      of_place (some place) (split, at) =
          HasBytes-moved place.before place.here place.after (subst (HasBytes i b) split h)

  replaced_kept :
      (order : HashOrder) (t : Files) (k : ℕ) (p bytes : List ℕ) (es : List Entry)
      → Uses t i k
      → AllCounted t es
      → HasBytes i b es
      → HasBytes i b (replaced p bytes es).1
  replaced_kept order t k p bytes [] user counted h = absurd h
  replaced_kept order t k p bytes (e ∷ es) user (here, counted) h =
      elim (Bool-cases (equals e.locks 0)) [
        | inl idle ↦ rw idle (not_here idle h)
        | inr busy ↦ rw busy h
      ]
    where
      not_here :
          equals e.locks 0 ≡ true
          → HasBytes i b (e ∷ es)
          → HasBytes i b
              (es ++ (record { slot = e.slot; filepath = p; bytes = bytes; locks = pos 0 } ∷ []))
      not_here idle (inl (slot, same)) = absurd (
          locked_if_used order t e.slot k e.locks here (subst (λ j. Uses t j k) (sym slot) user)
            idle)
      not_here idle (inr rest) = HasBytes-front es _ rest

  pub answer_kept :
      (order : HashOrder) (q : CacheRequest) (t : Files) (k : ℕ)
      → Uses t i k
      → AllCounted t t.files
      → HasBytes i b t.files
      → HasBytes i b (answer order q t).1.files
  answer_kept order (fetch j p) t k user counted h = fetched_kept p t.files h
  answer_kept order (store p bytes watch) t k user counted h = of_free t.free
    where
      of_free : (free : List ℕ) → HasBytes i b (inserted order free p bytes t.files).1
      of_free [] = replaced_kept order t k p bytes t.files user counted h
      of_free (x ∷ xs) = HasBytes-front t.files _ h
  answer_kept order (finish j) t k user counted h = elim (Bool-cases (t.clients j).using_file) [
    | inl uses ↦ rw uses (HasBytes-unlocked _ t.files h)
    | inr idle ↦ rw idle h
  ]

pub HasBytes-held :
    (c : Cache) (i : ℕ) (es : List Entry)
    → has i (slots_of es) ≡ true
    → All (Holds c) es
    → HasBytes i (c.cache_buffer i).buffer es
HasBytes-held c i [] m h = absurd (false_ne_true m)
HasBytes-held c i (e ∷ es) m ((inside, used, bytes, locks, fresh, path), h) =
    elim (Bool-cases (e.slot == i)) [
      | inl hit ↦
          let same = (==_iff e.slot i).0 hit in
          inl (same, sym bytes ∙ ap (λ j. (c.cache_buffer j).buffer) same)
      | inr miss ↦ inr (HasBytes-held c i es (sym (rw miss refl) ∙ m) h)
    ]
