-- ===== src/Tls/Loop.antt =====
-- The loop of a TLS read, in which wolfSSL turns the bytes of the network into those of the client.
use liburing_server.Prelude.{
  ℕ, zero, suc, ◌-◌, ◌≤◌, ◌<◌, arith, Bool, true, false, List, [], ◌++◌, length, take, ok, ◌>>=◌,
  if◌then◌else◌, ltb, Option, none, some, ℤ, pos, negsuc, length-append, length-take, Finishes,
  Finishes-bind,
}
use liburing_server.Tcp.Loop.{World}
use liburing_server.Tls.Io.{run_io, WolfSsl, Secured, session_at, call_ssl}
use liburing_server.Tls.Server.{read_loop}
use liburing_server.Tls.Ends.{session_at-Finishes, FitsIn, IsBounded, Any, run_io-Finishes}

module _ {S W : Type 0} (wolf : WolfSsl S) (bounded : IsBounded wolf) where
  -- A read of a client's session, which may be null.
  read-Finishes :
      (i n : ℕ) (s : World (Secured S W))
      → Finishes
          (λ ((result, out), t). FitsIn n result out)
          (call_ssl wolf i (λ ssl. wolf.read ssl n) s)
  unfolding call_ssl
  read-Finishes i n s =
      Finishes-bind Any (λ ((result, out), t). FitsIn n result out) (session_at s i) _
        (session_at-Finishes i s) (λ session u. of_session session.ssl bounded)
    where
      of_session :
          (ssl : Option S)
          → IsBounded wolf
          → Finishes {A = (ℤ × List ℕ) × World (Secured S W)}
              (λ ((result, out), t). FitsIn n result out)
              (elim ssl [
                | none ↦ ok ((wolf.bad_func_arg, []), s)
                | some ssl ↦ run_io i (wolf.read ssl n) s
              ])
      of_session none (reads, (k, null)) = rw null tt
      of_session (some ssl) (reads, null) = run_io-Finishes i n (wolf.read ssl n) s (reads ssl n)

  -- With a wolfSSL whose reads keep to their buffer, give the count of their bytes, and fail
  -- with a negative number for a null session, the loop of a TLS read ends within one round
  -- more than the room left in its buffer, and if it returns, all that has been read is within
  -- the buffer.
  pub read_loop-Finishes :
      (fuel i room : ℕ) (out : List ℕ) (s : World (Secured S W))
      → length out ≤ room
      → room - length out < fuel
      → Finishes (λ (out, t). length out ≤ room) (read_loop wolf fuel i room out s)
  unfolding read_loop
  read_loop-Finishes zero i room out s inside enough = absurd (omega arith)
  read_loop-Finishes (suc fuel) i room out s inside enough =
      Finishes-bind Any (λ (out, t). length out ≤ room) (session_at s i) _ (session_at-Finishes i s)
        (λ session u.
          round (λ grown t fits less. read_loop-Finishes fuel i room grown t fits less)
            (ltb 0 (length session.recv_data)))
    where
      goes_on :
          (again : (grown : List ℕ) (t : World (Secured S W))
            → length grown ≤ room
            → room - length grown < fuel
            → Finishes (λ (out, t). length out ≤ room) (read_loop wolf fuel i room grown t))
          (result : ℤ) (more : List ℕ) (t : World (Secured S W))
          → FitsIn (room - length out) result more
          → Finishes {A = List ℕ × World (Secured S W)}
              (λ (out, t). length out ≤ room)
              (elim result [
                | pos zero ↦ ok (out, t)
                | pos (suc n) ↦ read_loop wolf fuel i room (out ++ take (suc n) more) t
                | negsuc n ↦ ok (out, t)
              ])
      goes_on again (pos zero) more t fits = inside
      goes_on again (pos (suc n)) more t (fits, same) =
          again (out ++ take (suc n) more) t
            (omega (arith, length-append out (take (suc n) more), length-take (suc n) more))
            (omega (arith, length-append out (take (suc n) more), length-take (suc n) more))
      goes_on again (negsuc n) more t fits = inside

      round :
          (again : (grown : List ℕ) (t : World (Secured S W))
            → length grown ≤ room
            → room - length grown < fuel
            → Finishes (λ (out, t). length out ≤ room) (read_loop wolf fuel i room grown t))
          (some_there : Bool)
          → Finishes {A = List ℕ × World (Secured S W)}
              (λ (out, t). length out ≤ room)
              (if some_there
                then call_ssl wolf i (λ ssl. wolf.read ssl (room - length out)) s
                  >>= (λ ((result, more), t). elim result [
                    | pos zero ↦ ok (out, t)
                    | pos (suc n) ↦ read_loop wolf fuel i room (out ++ take (suc n) more) t
                    | negsuc n ↦ ok (out, t)
                  ])
                else ok (out, s))
      round again true =
          Finishes-bind (λ ((result, more), t). FitsIn (room - length out) result more)
            (λ (out, t). length out ≤ room)
            (call_ssl wolf i (λ ssl. wolf.read ssl (room - length out)) s) _
            (read-Finishes i (room - length out) s)
            (λ ((result, more), t) fits. goes_on again result more t fits)
      round again false = inside
