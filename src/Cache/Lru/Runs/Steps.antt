-- ===== src/Cache/Lru/Runs/Steps.antt =====
-- Each request of a client, on the cache and on the list.
use liburing_server.Prelude.{
  ℕ, ◌≡◌, refl, sym, ap, ◌∙◌, arith, Bool, true, false, false_ne_true, List, [], ◌∷◌, ◌++◌, Option,
  none, some, ok, if◌then◌else◌, ◌==◌, ℤ, equals, has, has-append, put_index, Bool-cases, inl, inr,
  eq→==, ==_iff,
}
use mathlib.Core.Path.{subst}
use liburing_server.DataStore.{HashOrder}
use liburing_server.Cache.{finished_with_item}
use liburing_server.Cache.Lru.{
  Entry, Place, find, slots_of, slot_of, locked_once, fetched, inserted, left, assigned, using,
  unlocked, Represents,
}
use liburing_server.Cache.Lru.Paths.{slots_of-append, Found, find-Found}
use liburing_server.Cache.Lru.Fetch.{fetch_item-Represents}
use liburing_server.Cache.Lru.Insert.{try_insert_item-Represents}
use liburing_server.Cache.Lru.Finish.{slots_of-unlocked, finished_with_item-Represents}
use liburing_server.Cache.Lru.Runs.{
  CacheRequest, fetch, store, finish, Served, serve, Files, left_by, answer, IsAllowed, HaveSlots,
  Refines,
}

-- No slot leaves the list.
has-moved :
    (i : ℕ) (xs : List Entry) (e : Entry) (ys : List Entry)
    → has i (slots_of (xs ++ (e ∷ ys))) ≡ true
    → has i (slots_of (xs ++ (ys ++ (locked_once e ∷ [])))) ≡ true
has-moved i xs e ys h =
    ap (has i) (
      slots_of-append xs (ys ++ (locked_once e ∷ []))
      ∙ ap (λ k. slots_of xs ++ k) (slots_of-append ys (locked_once e ∷ [])))
    ∙ has-append i (slots_of xs) (slots_of ys ++ (e.slot ∷ []))
    ∙ at_end (
        sym (
          ap (has i) (slots_of-append xs (e ∷ ys))
          ∙ has-append i (slots_of xs) (e.slot ∷ slots_of ys))
        ∙ h)
  where
    at_end :
        (if has i (slots_of xs) then true else has i (e.slot ∷ slots_of ys)) ≡ true
        → (if has i (slots_of xs) then true else has i (slots_of ys ++ (e.slot ∷ []))) ≡ true
    at_end m = ground (arith, has-append i (slots_of ys) (e.slot ∷ []))

has-snoc :
    (i : ℕ) (es : List Entry) (e : Entry)
    → (if has i (slots_of es) then true else has i (e.slot ∷ [])) ≡ true
    → has i (slots_of (es ++ (e ∷ []))) ≡ true
has-snoc i es e h =
    ap (has i) (slots_of-append es (e ∷ [])) ∙ has-append i (slots_of es) (e.slot ∷ []) ∙ h

has-inserted :
    (order : HashOrder) (free : List ℕ) (p bytes : List ℕ) (i : ℕ) (es : List Entry)
    → has i (slots_of es) ≡ true
    → has i (slots_of (inserted order free p bytes es).1) ≡ true
has-inserted order (x ∷ xs) p bytes i es h = has-snoc i es _ (rw h refl)
has-inserted order [] p bytes i [] h = h
has-inserted order [] p bytes i (e ∷ es) h = elim (Bool-cases (equals e.locks 0)) [
  | inl idle ↦ rw idle (has-snoc i es _ (ground arith))
  | inr busy ↦ rw busy h
]

-- What a request makes of both sides.
abbrev Serves : HashOrder → CacheRequest → Served → Files → Type 0
Serves order q s t =
    (s' : Served) × (serve order q s ≡ ok ((answer order q t).0, s'))
    × Refines s' (answer order q t).1

put_at : {A : Type 0} (m : ℕ → A) (k : ℕ) (v : A) → put_index m k v k ≡ v
put_at m k v = rw (eq→== k k refl) refl

serve_fetch :
    (order : HashOrder) (k : ℕ) (p : List ℕ) (s : Served) (t : Files)
    → Refines s t
    → Serves order (fetch k p) s t
unfolding serve
serve_fetch order k p s t r =
    let (d, ran, r', same, slots_by, size) =
      fetch_item-Represents s.cache p k (s.clients k) t.files r.represents in
    (
      record { cache = d; clients = put_index s.clients k (using (s.clients k) (find p t.files)) },
      rw ran refl,
      record {
        represents = r';
        free = same ∙ r.free;
        slots_of_clients = slots_by ∙ ap (λ m. assigned m k (find p t.files)) r.slots_of_clients;
        clients = ap (λ m. put_index m k (using (m k) (find p t.files))) r.clients;
        several = omega (arith, r.several, size);
        have_slots = have (find p t.files) (find-Found p t.files);
      },
    )
  where
    have :
        (o : Option Place)
        → Found p t.files o
        → HaveSlots (record t {
          files = (fetched t.files o).1;
          slots_of_clients = assigned t.slots_of_clients k o;
          clients = put_index t.clients k (using (t.clients k) o);
        })
    have none m j uses = elim (Bool-cases (k == j)) [
      | inl hit ↦
          r.have_slots j (
            ap (λ i. (t.clients i).using_file) (sym ((==_iff k j).0 hit))
            ∙ sym (rw hit refl)
            ∙ uses)
      | inr miss ↦ r.have_slots j (sym (rw miss refl) ∙ uses)
    ]
    have (some place) (split, m) j uses = elim (Bool-cases (k == j)) [
      | inl hit ↦ (
        place.here.slot,
        rw hit refl,
        has-snoc2 place.here.slot place.before place.after place.here,
      )
      | inr miss ↦
          let (i, mapped, there) = r.have_slots j (sym (rw miss refl) ∙ uses) in
          (
            i,
            rw miss mapped,
            has-moved i place.before place.here place.after
                (ap (λ es. has i (slots_of es)) (sym split) ∙ there),
          )
    ]
      where
        has-snoc2 :
            (i : ℕ) (xs ys : List Entry) (e : Entry)
            → has e.slot (slots_of (xs ++ (ys ++ (locked_once e ∷ [])))) ≡ true
        has-snoc2 i xs ys e = has-moved e.slot xs e ys (
            ap (has e.slot) (slots_of-append xs (e ∷ ys))
            ∙ has-append e.slot (slots_of xs) (e.slot ∷ slots_of ys)
            ∙ rw (eq→== e.slot e.slot refl) (either (has e.slot (slots_of xs))))
          where
            either : (b : Bool) → (if b then true else true) ≡ true
            either false = refl
            either true = refl

serve_store :
    (order : HashOrder) (p bytes : List ℕ) (watch : ℤ) (s : Served) (t : Files)
    → Refines s t
    → slot_of p t.files ≡ none
    → Serves order (store p bytes watch) s t
unfolding serve
serve_store order p bytes watch s t r absent =
    let (d, ran, r', same, slots_by, size) =
      try_insert_item-Represents order s.cache p bytes watch t.files r.several r.represents
        absent in
    (
      record s { cache = d },
      rw (ran, r.free) refl,
      record {
        represents = subst (λ free. Represents d (inserted order free p bytes t.files).1) r.free r';
        free = same ∙ ap (left order) r.free;
        slots_of_clients = slots_by ∙ r.slots_of_clients;
        clients = r.clients;
        several = omega (arith, r.several, size);
        have_slots = λ k uses.
            let (i, mapped, there) = r.have_slots k uses in
            (i, mapped, has-inserted order t.free p bytes i t.files there);
      },
    )

serve_finish :
    (order : HashOrder) (k : ℕ) (s : Served) (t : Files) → Refines s t → Serves order (finish k) s t
unfolding serve finished_with_item
serve_finish order k s t r = elim (Bool-cases (t.clients k).using_file) [
  | inl uses ↦
      let uses' : (s.clients k).using_file ≡ true = ap (λ m. (m k).using_file) r.clients ∙ uses in
      let (i, mapped, there) = r.have_slots k uses in
      let (d, ran, r', same, slots_by, size) =
        finished_with_item-Represents s.cache k i (s.clients k) t.files r.represents uses'
          (ap (λ m. m k) r.slots_of_clients ∙ mapped) there in
      (
        record {
          cache = d;
          clients = put_index s.clients k (record (s.clients k) { using_file = false });
        },
        rw ran refl,
        rw uses (record {
          represents = rw mapped r';
          free = same ∙ r.free;
          slots_of_clients = slots_by ∙ r.slots_of_clients;
          clients = ap (λ m. put_index m k (record (m k) { using_file = false })) r.clients;
          several = omega (arith, r.several, size);
          have_slots = rw mapped (have i);
        }),
      )
  | inr idle ↦ (
    still,
    rw (ap (λ m. (m k).using_file) r.clients ∙ idle) refl,
    subst
        (λ b.
          Refines still
            (if b then left_by k t else record t { clients = put_index t.clients k (t.clients k) }))
        (sym idle)
        (record {
          represents = r.represents;
          free = r.free;
          slots_of_clients = r.slots_of_clients;
          clients = ap (λ m. put_index m k (m k)) r.clients;
          several = r.several;
          have_slots = λ j uses. r.have_slots j (sym (unchanged j) ∙ uses);
        }),
  )
]
  where
    still : Served
    still = record s { clients = put_index s.clients k (s.clients k) }

    unchanged :
        (j : ℕ) → (put_index t.clients k (t.clients k) j).using_file ≡ (t.clients j).using_file
    unchanged j = elim (Bool-cases (k == j)) [
      | inl hit ↦ rw hit (ap (λ i. (t.clients i).using_file) ((==_iff k j).0 hit))
      | inr miss ↦ rw miss refl
    ]

    have :
        (i : ℕ)
        → HaveSlots (record t {
          files = unlocked i t.files;
          clients = put_index t.clients k (record (t.clients k) { using_file = false });
        })
    have i j uses = elim (Bool-cases (k == j)) [
      | inl hit ↦ absurd (false_ne_true (sym (rw hit refl) ∙ uses))
      | inr miss ↦
          let (l, mapped, there) = r.have_slots j (sym (rw miss refl) ∙ uses) in
          (l, mapped, ap (has l) (slots_of-unlocked i t.files) ∙ there)
    ]

pub serve-Refines :
    (order : HashOrder) (q : CacheRequest) (s : Served) (t : Files)
    → Refines s t
    → IsAllowed q t
    → Serves order q s t
serve-Refines order (fetch k p) s t r allowed = serve_fetch order k p s t r
serve-Refines order (store p bytes watch) s t r allowed =
    serve_store order p bytes watch s t r allowed
serve-Refines order (finish k) s t r allowed = serve_finish order k s t r
