-- ===== src/Central/Broadcast/Frees.antt =====
-- A message of a thread is taken, and a use of its item: the item is there.
use liburing_server.Prelude.{
  ℕ, zero, suc, ◌+◌, ◌<◌, ◌≡◌, refl, sym, ap, ◌∙◌, arith, Bool, true, false, List, [], ◌∷◌,
  get_elem?, set, Option, none, some, ok, if◌then◌else◌, ◌==◌, ==_iff, lt_of_get_elem?, ne→not-==,
  get_elem?-set_self, set-set, Returns, length-set, All-get, All-set, ℤ, pos, negsuc,
}
use liburing_server.DataStore.{Store, free_item}
use liburing_server.DataStore.Uses.{lookup, IsValid, lookup-free_item}
use liburing_server.Web.{Server, Message}
use liburing_server.Central.Run.{Central, CentralReq, handle_thread, add_event_read_req}
use liburing_server.Central.Broadcast.{one_if, queued, owes, owed, IsSound, owed-set, owes_le_owed}
use liburing_server.Central.Broadcast.Debts.{first_report}
use liburing_server.Central.Broadcast.Counted.{
  thread_now, reported, uses_left, IsCounted, first_of, positive, pos-injective,
}

-- An item that is owed is in use.
pub owed_in_use :
    (o : Option (List ℕ × ℤ)) (n : ℕ)
    → uses_left o ≡ pos (suc n)
    → (buff : List ℕ) × (o ≡ some (buff, pos (suc n)))
owed_in_use none n e = absurd (zero_ne_suc (pos-injective e))
  where
    zero_ne_suc : 0 ≡ suc n → ⊥
    zero_ne_suc e = omega (arith, e)
owed_in_use (some (buff, pos zero)) n e = cc
owed_in_use (some (buff, pos (suc k))) n e = (buff, ap (λ z. some (buff, z)) e)
owed_in_use (some (buff, negsuc k)) n e = cc

-- The thread's message is taken.
abbrev pub without_first : Server → List Message → Server
without_first s rest = record s {
  custom_obj = record (s.custom_obj) { to_program_queue = rest; central_communication = 0 };
}

owes-without_first :
    (i : ℕ) (s : Server) (m : Message) (rest : List Message)
    → s.custom_obj.to_program_queue ≡ m ∷ rest
    → owes i (without_first s rest) + one_if (m.item_idx == i) ≡ owes i s
owes-without_first i s m rest front = omega (arith, ap (queued i) front)

-- The state after the message has been taken and the item freed.
abbrev pub taken_by : Central → ℕ → Server → List Message → Store (List ℕ) → Central
taken_by c k s rest t = record c { store = t; threads = set c.threads k (without_first s rest) }

taken_by-IsCounted :
    (c : Central) (k n : ℕ) (s : Server) (m : Message) (rest : List Message) (buff : List ℕ)
    (t : Store (List ℕ))
    → IsCounted c
    → get_elem? c.threads k ≡ some s
    → s.custom_obj.to_program_queue ≡ m ∷ rest
    → owed m.item_idx c.threads ≡ suc n
    → IsValid t
    → ((j : ℕ)
        → lookup t j ≡ (
            if m.item_idx == j
            then (if n == 0 then none else some (buff, pos n))
            else lookup c.store j))
    → IsCounted (taken_by c k s rest t)
taken_by-IsCounted c k n s m rest buff t (valid, sound, counted, some_thread) at front many valid'
      now =
    (
      valid',
      All-set IsSound c.threads k (without_first s rest) sound
          (less (All-get IsSound c.threads k sound at)),
      (λ i. ap uses_left (now i) ∙ one_less i (m.item_idx == i) refl (==_iff m.item_idx i).0),
      omega (arith, length-set c.threads k (without_first s rest)),
    )
  where
    less : IsSound s → IsSound (without_first s rest)
    less (on, once, nots, comms) =
        (on, (λ i. omega (arith, once i, owes-without_first i s m rest front)), nots, omega arith)

    few : (n : ℕ) → uses_left (if n == 0 then none else some (buff, pos n)) ≡ pos n
    few zero = refl
    few (suc n) = rw (ne→not-== (suc n) 0 (λ e. omega (arith, e))) refl

    one_less :
        (i : ℕ) (here : Bool)
        → (m.item_idx == i) ≡ here
        → (here ≡ true → m.item_idx ≡ i)
        → uses_left
            (if here then (if n == 0 then none else some (buff, pos n)) else lookup c.store i)
          ≡ pos (owed i (set c.threads k (without_first s rest)))
    one_less i true e same =
        let there : owed i c.threads ≡ suc n =
          ap (λ j. owed j c.threads) (sym (same refl)) ∙ many in
        few n
        ∙ ap pos (
            omega (
              arith,
              there,
              owed-set i k c.threads s (without_first s rest) at,
              owes-without_first i s m rest front,
              ap one_if e,
            ))
    one_less i false e same =
        counted i
        ∙ ap pos (
            omega (
              arith,
              owed-set i k c.threads s (without_first s rest) at,
              owes-without_first i s m rest front,
              ap one_if e,
            ))

-- One of the uses of the item is gone, and the item with the last of them; the others are as before.
abbrev pub FreedOnce : Central → Store (List ℕ) → ℕ → ℕ → List ℕ → Type 0
FreedOnce c t i n buff =
    (j : ℕ)
    → lookup t j
      ≡ (if i == j then (if n == 0 then none else some (buff, pos n)) else lookup c.store j)

-- The item of a message of a thread is in use, and is freed.
freed :
    (c : Central) (k : ℕ) (s : Server) (m : Message) (rest : List Message)
    → IsCounted c
    → get_elem? c.threads k ≡ some s
    → s.custom_obj.to_program_queue ≡ m ∷ rest
    → (n : ℕ) × (buff : List ℕ) × (t : Store (List ℕ)) × (lookup c.store m.item_idx
        ≡ some (buff, pos (suc n)))
      × (owed m.item_idx c.threads ≡ suc n)
      × (free_item [] c.store m.item_idx ≡ ok t)
      × FreedOnce c t m.item_idx n buff
      × IsCounted (taken_by c k s rest t)
freed c k s m rest (valid, sound, counted, some_thread) at front =
    let (n, many) = positive (owed m.item_idx c.threads) (
      omega (
        arith,
        owes_le_owed m.item_idx k c.threads s at,
        owes-without_first m.item_idx s m rest front,
        ap one_if ((==_iff m.item_idx m.item_idx).1 refl),
      )) in
    let (buff, there) =
      owed_in_use (lookup c.store m.item_idx) n (counted m.item_idx ∙ ap pos many) in
    let (t, e, valid', now) = lookup-free_item [] c.store m.item_idx n buff valid there in
    (
      n,
      buff,
      t,
      there,
      many,
      e,
      now,
      taken_by-IsCounted c k n s m rest buff t (valid, sound, counted, some_thread) at front many
          valid' now,
    )

pub handle_thread-IsCounted :
    (c : Central) (k : ℕ) (s : Server) (req : CentralReq)
    → IsCounted c
    → get_elem? c.threads k ≡ some s
    → 0 < s.custom_obj.central_communication
    → req.custom_info ≡ some k
    → Returns IsCounted (handle_thread (thread_now c k (reported s)) req)
unfolding handle_thread add_event_read_req
handle_thread-IsCounted c k s req (valid, sound, counted, some_thread) at more of_k =
    let good : IsSound s = All-get IsSound c.threads k sound at in
    let (on, once, nots, comms) = good in
    let (m, rest, front) = first_of s.custom_obj.to_program_queue (omega (arith, comms)) in
    let (n, buff, t, there, many, e, now, after) =
      freed c k s m rest (valid, sound, counted, some_thread) at front in
    rw
      (
        of_k,
        get_elem?-set_self c.threads k (reported s) (lt_of_get_elem? c.threads k at),
        first_report (record (s.custom_obj) { central_communication = 0 }) m rest front,
        e,
        set-set c.threads k (reported s) (without_first s rest),
      )
      after

-- From a state in which the uses left of every item in the store are the threads that owe it,
-- every thread has its TCP server set, owes each item once at most and has no more notified than
-- queued, the store is valid and there is a thread, the handling of a read of the eventfd of a
-- thread with messages queued: the item of the first of them is in use before, with a use left
-- for each thread that owes it; the handling returns; the item has one use less then, or is gone
-- where it was the last; every other index has what it had; and the thread has the message no
-- more.
pub handle_thread-free_item :
    (c : Central) (k : ℕ) (s : Server) (m : Message) (rest : List Message) (req : CentralReq)
    → IsCounted c
    → get_elem? c.threads k ≡ some s
    → s.custom_obj.to_program_queue ≡ m ∷ rest
    → req.custom_info ≡ some k
    → (n : ℕ) × (buff : List ℕ) × (lookup c.store m.item_idx ≡ some (buff, pos (suc n)))
      × (owed m.item_idx c.threads ≡ suc n)
      × Returns
          (λ d.
            (d.threads ≡ set c.threads k (without_first s rest))
            × FreedOnce c d.store m.item_idx n buff)
          (handle_thread (thread_now c k (reported s)) req)
unfolding handle_thread add_event_read_req
handle_thread-free_item c k s m rest req counted at front of_k =
    let (n, buff, t, there, many, e, now, after) = freed c k s m rest counted at front in
    (
      n,
      buff,
      there,
      many,
      rw
          (
            of_k,
            get_elem?-set_self c.threads k (reported s) (lt_of_get_elem? c.threads k at),
            first_report (record (s.custom_obj) { central_communication = 0 }) m rest front,
            e,
            set-set c.threads k (reported s) (without_first s rest),
          )
          (refl, now),
    )
