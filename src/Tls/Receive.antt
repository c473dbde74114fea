-- ===== src/Tls/Receive.antt =====
-- The read callback of wolfSSL, `tls_recv`: which bytes it hands out, and what it asks for.
use liburing_server.Prelude.{
  eq→==, ◌==◌, ℕ, zero, suc, ◌+◌, ◌≤◌, ◌<◌, ◌≡◌, refl, sym, ap, ◌∙◌, arith, Bool, true, false, List,
  [], ◌∷◌, ◌++◌, length, take, drop, ok, resize, ◌>>=◌, if◌then◌else◌, ltb, le→leb, lt→ltb,
  le→not-ltb, Outcome, ℤ, pos, negsuc, All, get_elem?, some, append_assoc, has, take-append-drop,
  length-take, length-drop, take_all, append-nil, inl, inr, Bool-cases,
}
use Prim.Native.Nat.add
use mathlib.Core.Path.{fun_ext}
use liburing_server.Tcp.{Client, add_read_req, accept_read, read}
use liburing_server.Tcp.Loop.{World, on_tcp}
use liburing_server.Ws.Frame.{write_bytes}
use liburing_server.Ws.Frame.Laws.{write_bytes_lem}
use liburing_server.Tls.Io.{
  Answer, want, amount, Session, Secured, Io, run_io, session_at, put_session, set_session,
  remove_first_n_elements, tls_recv_helper, tls_recv,
}

resize-append : (xs ys : List ℕ) → resize 0 (length xs) (xs ++ ys) ≡ xs
unfolding resize
resize-append [] ys = refl
resize-append (x ∷ xs) ys = ap (◌∷◌ x) (resize-append xs ys)

-- The residual bytes are moved over the ones that were there.
moved : (xs ys : List ℕ) → length ys ≤ length xs → resize 0 (length ys) (write_bytes xs 0 ys) ≡ ys
moved xs ys h =
    ap (λ l. resize 0 (length ys) (write_bytes l 0 ys)) (sym (take-append-drop (length ys) xs))
    ∙ ap (resize 0 (length ys)) (
        write_bytes_lem [] (take (length ys) xs) (drop (length ys) xs) ys
          (omega (arith, length-take (length ys) xs)))
    ∙ resize-append ys (drop (length ys) xs)

-- For at most as many elements as there are, remove_first_n_elements leaves the others, in order.
remove_first_n_elements_lem :
    (xs : List ℕ) (n : ℕ) → n ≤ length xs → remove_first_n_elements xs n ≡ ok (drop n xs)
unfolding remove_first_n_elements
remove_first_n_elements_lem xs n h =
    rw (le→leb n (length xs) h, sym (length-drop n xs))
      (ap ok (moved xs (drop n xs) (omega (arith, length-drop n xs))))

drop_all : (xs : List ℕ) → drop (length xs) xs ≡ []
drop_all [] = refl
drop_all (x ∷ xs) = drop_all xs

drop-take : (m n : ℕ) (xs : List ℕ) → take m xs ++ take n (drop m xs) ≡ take (m + n) xs
drop-take zero n xs = ap (λ k. take k xs) (omega arith)
drop-take (suc m) n [] = take_nil n ∙ sym (take_nil (suc m + n))
  where
    take_nil : (k : ℕ) → take {A = ℕ} k [] ≡ []
    take_nil zero = refl
    take_nil (suc k) = refl
drop-take (suc m) n (x ∷ xs) =
    ap (◌∷◌ x) (drop-take m n xs) ∙ ap (λ k. take k (x ∷ xs)) (sym (add.suc m n))

drop-drop : (m n : ℕ) (xs : List ℕ) → drop n (drop m xs) ≡ drop (m + n) xs
drop-drop zero n xs = ap (λ k. drop k xs) (omega arith)
drop-drop (suc m) n [] = drop_nil n ∙ sym (drop_nil (suc m + n))
  where
    drop_nil : (k : ℕ) → drop {A = ℕ} k [] ≡ []
    drop_nil zero = refl
    drop_nil (suc k) = refl
drop-drop (suc m) n (x ∷ xs) = drop-drop m n xs ∙ ap (λ k. drop k (x ∷ xs)) (sym (add.suc m n))

-- A caller that asks for one amount after the other, keeps what it is given, and adds up the amounts
-- that it is told, as wolfSSL does for the parts of a record. It gives up on a negative amount.
abbrev pub reads : {S : Type 0} → S → List ℕ → ℕ → List ℕ → Io S
reads ssl [] done out = Io.returns ssl (pos done) out
reads ssl (n ∷ ns) done out = Io.recv n (λ answer. elim answer [
  | want ↦ Io.returns ssl (negsuc 0) out
  | amount got more ↦ elim got [
    | pos k ↦ reads ssl ns (done + k) (out ++ more)
    | negsuc k ↦ Io.returns ssl (negsuc 0) out
  ]
])

abbrev pub total : List ℕ → ℕ
total [] = 0
total (n ∷ ns) = n + total ns

module _ {S : Type 0} where
  pub set_session_self :
      (sessions : ℕ → Session S) (i : ℕ) (session : Session S)
      → set_session sessions i session i ≡ session
  set_session_self sessions i session = rw (eq→== i i refl) refl

  pub set_session-set_session :
      (sessions : ℕ → Session S) (i : ℕ) (first second : Session S)
      → set_session (set_session sessions i first) i second ≡ set_session sessions i second
  set_session-set_session sessions i first second = fun_ext (λ j. at j (i == j))
    where
      at :
          (j : ℕ) (here : Bool)
          → (if here then second else if here then first else sessions j)
            ≡ (if here then second else sessions j)
      at j true = refl
      at j false = refl

module _ {S W : Type 0} where
  -- wolfSSL is told to wait, behind what was asked for.
  abbrev pub and_wait : Outcome (World (Secured S W)) → Outcome (Answer × World (Secured S W))
  and_wait m = m >>= (λ t. ok (want, t))

  -- What is there covers the amount asked for: it is handed out, whichever branch is taken.
  helper_ready :
      (i sz : ℕ) (for_accept : Bool) (s : World (Secured S W)) (session : Session S)
      → sz ≤ length session.recv_data
      → tls_recv_helper i sz for_accept s session
        ≡ ok (
          amount (pos sz) (take sz session.recv_data),
          put_session s i (record session { recv_data = drop sz session.recv_data }),
        )
  unfolding tls_recv_helper
  helper_ready i sz for_accept s session h = elim (Bool-cases (ltb sz (length session.recv_data))) [
    | inl less ↦ rw (less, remove_first_n_elements_lem session.recv_data sz h) refl
    | inr not_less ↦
        let same : length session.recv_data ≡ sz = ground arith in
        let rest : drop sz session.recv_data ≡ [] =
          ap (λ k. drop k session.recv_data) (sym same) ∙ drop_all session.recv_data in
        rw
          (
            not_less,
            le→not-ltb (length session.recv_data) sz (omega arith),
            take_all sz session.recv_data (omega arith),
            rest,
            same,
          )
          refl
  ]

  -- Too little is there: nothing is taken, and in the handshake more is asked for.
  helper_short :
      (i sz : ℕ) (for_accept : Bool) (s : World (Secured S W)) (session : Session S)
      → length session.recv_data < sz
      → tls_recv_helper i sz for_accept s session
        ≡ and_wait (if for_accept then on_tcp s (add_read_req s.tcp i accept_read) else ok s)
  unfolding tls_recv_helper
  helper_short i sz for_accept s session h =
      rw
        (
          le→not-ltb sz (length session.recv_data) (omega arith),
          lt→ltb (length session.recv_data) sz h,
        )
        refl

  -- Some bytes of the network are there, and no fewer than `sz`: `tls_recv` hands out the first `sz` of
  -- them and keeps the others, with nothing else changed.
  pub tls_recv-ready :
      (i sz : ℕ) (s : World (Secured S W)) (session : Session S)
      → session_at s i ≡ ok session
      → 0 < length session.recv_data
      → sz ≤ length session.recv_data
      → tls_recv i sz s
        ≡ ok (
          amount (pos sz) (take sz session.recv_data),
          put_session s i (record session { recv_data = drop sz session.recv_data }),
        )
  unfolding tls_recv
  tls_recv-ready i sz s session found some_there enough =
      rw (found, lt→ltb 0 (length session.recv_data) some_there)
        (helper_ready i sz (if has i s.tcp.active_connections then false else true) s session
          enough)

  -- Asked for more bytes than are there, tls_recv hands out none and keeps them, and wolfSSL
  -- has to wait; a read is asked for if the client is in its handshake or if no byte is there,
  -- and for an active client with some bytes none is.
  pub tls_recv-short :
      (i sz : ℕ) (s : World (Secured S W)) (session : Session S)
      → session_at s i ≡ ok session
      → length session.recv_data < sz
      → tls_recv i sz s
        ≡ and_wait (
            if has i s.tcp.active_connections
            then (if ltb 0 (length session.recv_data)
                then ok s
                else on_tcp s (add_read_req s.tcp i read))
            else on_tcp s (add_read_req s.tcp i accept_read))
  unfolding tls_recv
  tls_recv-short i sz s session found short = rw found (
      rw
        (helper_short i sz (if has i s.tcp.active_connections then false else true) s session short)
        (cases (has i s.tcp.active_connections) (ltb 0 (length session.recv_data))))
    where
      cases :
          (active there : Bool)
          → (if there
              then and_wait (
                  if (if active then false else true)
                  then on_tcp s (add_read_req s.tcp i accept_read)
                  else ok s)
              else and_wait
                  (on_tcp s (add_read_req s.tcp i (if active then read else accept_read))))
            ≡ and_wait (
                if active
                then (if there then ok s else on_tcp s (add_read_req s.tcp i read))
                else on_tcp s (add_read_req s.tcp i accept_read))
      cases true true = refl
      cases true false = refl
      cases false true = refl
      cases false false = refl

  -- What a run of `reads` leaves, from what was read before.
  abbrev read_out :
      S → World (Secured S W) → ℕ → Session S → ℕ → List ℕ → ℕ → (ℤ × List ℕ) × World (Secured S W)
  read_out ssl s i session done out n = (
    (pos (done + n), out ++ take n session.recv_data),
    put_session s i (record session { ssl = some ssl; recv_data = drop n session.recv_data }),
  )

  reads_from :
      (i : ℕ) (ssl : S) (sizes : List ℕ) (done : ℕ) (out : List ℕ) (s : World (Secured S W))
      (c : Client) (session : Session S)
      → get_elem? s.tcp.clients i ≡ some c
      → s.custom_obj.sessions i ≡ session
      → All (λ n. 0 < n) sizes
      → total sizes ≤ length session.recv_data
      → run_io i (reads ssl sizes done out) s ≡ ok (read_out ssl s i session done out (total sizes))
  unfolding run_io
  reads_from i ssl [] done out s c session found kept positive enough =
      rw (found, kept, append-nil out)
        (ap
          (λ m. ok (
            (pos m, out),
            put_session s i (record session { ssl = some ssl; recv_data = session.recv_data }),
          ))
          (omega arith))
  reads_from i ssl (n ∷ ns) done out s c session found same (more, positive) enough =
      rw (tls_recv-ready i n s session (rw (found, same) refl) (omega arith) (omega arith)) (
        reads_from i ssl ns (done + n) (out ++ take n session.recv_data)
          (put_session s i (record session { recv_data = drop n session.recv_data })) c
          (record session { recv_data = drop n session.recv_data }) found
          (set_session_self s.custom_obj.sessions i
            (record session { recv_data = drop n session.recv_data }))
          positive (omega (arith, length-drop n session.recv_data))
        ∙ ap ok joined)
    where
      kept : Session S
      kept = record session { recv_data = drop n session.recv_data }

      sum : done + n + total ns ≡ done + (n + total ns)
      sum = omega arith

      joined :
          read_out ssl
            (put_session s i kept)
            i
            kept
            (done + n)
            (out ++ take n session.recv_data)
            (total ns)
          ≡ read_out ssl s i session done out (n + total ns)
      joined =
          rw
            (
              sum,
              append_assoc out (take n session.recv_data)
                  (take (total ns) (drop n session.recv_data)),
              drop-take n (total ns) session.recv_data,
              drop-drop n (total ns) session.recv_data,
              set_session-set_session s.custom_obj.sessions i kept (record session {
                ssl = some ssl;
                recv_data = drop (n + total ns) session.recv_data;
              }),
            )
            refl

  -- A caller that asks tls_recv for positive amounts one after the other, with as many bytes of
  -- the network there in all, is told each of these amounts and given the bytes in order
  -- without a gap, and the bytes behind them stay.
  pub tls_recv-run_io :
      (i : ℕ) (ssl : S) (sizes : List ℕ) (s : World (Secured S W)) (c : Client)
      (session : Session S)
      → get_elem? s.tcp.clients i ≡ some c
      → s.custom_obj.sessions i ≡ session
      → All (λ n. 0 < n) sizes
      → total sizes ≤ length session.recv_data
      → run_io i (reads ssl sizes 0 []) s
        ≡ ok (
          (pos (total sizes), take (total sizes) session.recv_data),
          put_session s i
              (record session { ssl = some ssl; recv_data = drop (total sizes) session.recv_data }),
        )
  tls_recv-run_io i ssl sizes s c session found kept positive enough =
      reads_from i ssl sizes 0 [] s c session found kept positive enough
      ∙ ap
          (λ m. ok (
            (pos m, take (total sizes) session.recv_data),
            put_session s i (record session {
              ssl = some ssl;
              recv_data = drop (total sizes) session.recv_data;
            }),
          ))
          (omega arith)
