-- ===== src/Telit2/Recv.antt =====
-- `telit2_socket_recv`: a count that is returned is the whole length.
use attentive.Base.{
  ℕ, zero, suc, ◌+◌, ◌≤◌, ◌<◌, ◌^◌, ◌%◌, ◌≡◌, ◌≢◌, ◌⊎◌, ◌-◌, ◌++◌, refl, ap, ◌∙◌, Bool, true, false,
  Option, none, some, [], ltb, if◌then◌else◌, Bool-cases, inl, inr, length, arith,
}
use mathlib.Core.Path.{subst}
use attentive.Base.Int.{ℤ, pos, int_bound}
use attentive.Base.Text.{Bytes, codes}
use attentive.CString.{same_string, sscanf, c_string, print_nat, print_int}
use attentive.Modem.{
  World, done, M, Notice, at_set_timeout, at_set_command_scanner, at_command, at_simple_scanf,
  simple_scanf, scan, payload_of, memcpy, pure, ◌>>=◌, ◌>>◌,
}
use attentive.Modem.Inversion.{>>=-steps, length-memcpy, same_bytes-eq}
use attentive.Telit2.{
  Telit2, srecv_format, copy_payload, copy_round, scanner_srecv, recv_round, recv_next, recv_loop,
  telit2_socket_recv,
}

-- A response of this text holds no count.
scan-exhausted :
    (response : Bytes)
    → same_string response (codes "+CME ERROR: activation failed") ≡ true
    → scan srecv_format response ≡ []
unfolding scan same_string sscanf
scan-exhausted response e =
    rw (same_bytes-eq (c_string response) (codes "+CME ERROR: activation failed") e) refl

int_bound-small : (n : ℕ) → n < 2 ^ 31 → int_bound n ≡ n
int_bound-small n h = let e : n % 2 ^ 32 ≡ n = omega arith in rw e (ground arith)

module _ {F : Type 0} where
  scanf-exhausted :
      (response : Bytes) (n : ℤ) (w v : World (Telit2 F))
      → same_string response (codes "+CME ERROR: activation failed") ≡ true
      → at_simple_scanf (some response) srecv_format w ≢ (done n, v)
  unfolding at_simple_scanf simple_scanf
  scanf-exhausted response n w v e = rw (scan-exhausted response e) (λ x. cc)

  -- The rest of a round, once the count was read.
  module _ (notice : Notice (Telit2 F)) where
    -- A round that goes on has read a count that fits what is left of the buffer, and keeps its length.
    abbrev Advances : Bytes → ℕ → Option (ℤ × Bytes) → Type 0
    Advances buffer cnt r =
        (n : ℕ) × (b : Bytes) × (r ≡ some (pos n, b))
        × (cnt + n ≤ length buffer)
        × (length b ≡ length buffer)

    copy_payload-Advances :
        (buffer : Bytes) (cnt : ℕ) (response : Bytes) (n : ℤ) (r : Option (ℤ × Bytes))
        (w v : World (Telit2 F))
        → copy_payload notice buffer cnt response n w ≡ (done r, v)
        → Advances buffer cnt r
    unfolding copy_payload
    copy_payload-Advances buffer cnt response n r w v e =
        let keep : Bytes → M (Telit2 F) (Option (ℤ × Bytes)) = λ b. pure (some (n, b)) in
        let (rest, u, _, e') =
          >>=-steps (payload_of response) (λ t. memcpy buffer cnt t n >>= keep) r w v e in
        let (b, u', copied, e'') = >>=-steps (memcpy buffer cnt rest n) keep r u v e' in
        let (m, count, inside, long) = length-memcpy buffer cnt rest n b u u' copied in
        let added : r ≡ some (pos m, b) = cc in (m, b, added, inside, long)

    copy_round-Advances :
        (buffer : Bytes) (cnt : ℕ) (reply : Option Bytes) (r : Option (ℤ × Bytes))
        (w v : World (Telit2 F))
        → copy_round notice buffer cnt reply w ≡ (done r, v)
        → Advances buffer cnt r
    unfolding copy_round
    copy_round-Advances buffer cnt none r w v e = absurd cc
    copy_round-Advances buffer cnt (some response) r w v e =
        let (n, u, scanned, e') =
          >>=-steps (at_simple_scanf (some response) srecv_format)
            (λ n.
              if same_string response (codes "+CME ERROR: activation failed")
              then pure none
              else copy_payload notice buffer cnt response n)
            r w v e in
        elim (Bool-cases (same_string response (codes "+CME ERROR: activation failed"))) [
          | inl over ↦ absurd (scanf-exhausted response n w u over scanned)
          | inr more ↦ copy_payload-Advances buffer cnt response n r u v (
              subst
                (λ t.
                  (if t then pure none else copy_payload notice buffer cnt response n) u
                  ≡ (done r, v))
                more e')
        ]

    recv_round-Advances :
        (connid : ℤ) (buffer : Bytes) (cnt : ℕ) (r : Option (ℤ × Bytes)) (w v : World (Telit2 F))
        → recv_round notice connid buffer cnt w ≡ (done r, v)
        → Advances buffer cnt r
    unfolding recv_round
    recv_round-Advances connid buffer cnt r w v e =
        let chunk =
          (if ltb 128 (int_bound (length buffer) - cnt)
            then 128
            else int_bound (length buffer) - cnt) in
        let (_, a, _, e0) =
          >>=-steps (at_set_timeout 150)
            (λ _.
              at_set_command_scanner scanner_srecv
              >> (at_command notice
                    (codes "AT#SRECV=" ++ (print_int connid ++ (codes "," ++ print_nat chunk)))
                  >>= copy_round notice buffer cnt))
            r w v e in
        let (_, b, _, e1) =
          >>=-steps (at_set_command_scanner scanner_srecv)
            (λ _.
              at_command notice
                (codes "AT#SRECV=" ++ (print_int connid ++ (codes "," ++ print_nat chunk)))
              >>= copy_round notice buffer cnt)
            r a v e0 in
        let (reply, u, _, e') =
          >>=-steps
            (at_command notice
              (codes "AT#SRECV=" ++ (print_int connid ++ (codes "," ++ print_nat chunk))))
            (copy_round notice buffer cnt) r b v e1 in
        copy_round-Advances buffer cnt reply r u v e'

    -- A loop that returns has stopped, or has gone one round further.
    recv_loop-step :
        (rounds : ℕ) (connid : ℤ) (buffer : Bytes) (cnt n : ℕ) (b : Bytes) (w v : World (Telit2 F))
        → recv_loop notice (suc rounds) connid buffer cnt w ≡ (done (n, b), v)
        → ((int_bound (length buffer) ≤ cnt) × (n ≡ cnt) × (b ≡ buffer))
          ⊎ ((m : ℕ) × (b' : Bytes) × (u : World (Telit2 F)) × (cnt + m ≤ length buffer)
              × (length b' ≡ length buffer)
              × (recv_loop notice rounds connid b' (cnt + m) u ≡ (done (n, b), v)))
    unfolding recv_loop recv_next
    recv_loop-step rounds connid buffer cnt n b w v e =
        go (ltb cnt (int_bound (length buffer))) refl e
      where
        next : Option (ℤ × Bytes) → M (Telit2 F) (ℕ × Bytes)
        next = recv_next (λ b c. recv_loop notice rounds connid b c) buffer cnt

        go :
            (more : Bool)
            → ltb cnt (int_bound (length buffer)) ≡ more
            → (elim more as (λ _. M (Telit2 F) (ℕ × Bytes)) [
              | false ↦ pure (cnt, buffer)
              | true ↦ recv_round notice connid buffer cnt >>= next
            ])
                w
              ≡ (done (n, b), v)
            → ((int_bound (length buffer) ≤ cnt) × (n ≡ cnt) × (b ≡ buffer))
              ⊎ ((m : ℕ) × (b' : Bytes) × (u : World (Telit2 F)) × (cnt + m ≤ length buffer)
                  × (length b' ≡ length buffer)
                  × (recv_loop notice rounds connid b' (cnt + m) u ≡ (done (n, b), v)))
        go false k e = inl (ground arith, cc, cc)
        go true k e =
            let (r, u, round, e') =
              >>=-steps (recv_round notice connid buffer cnt) next (n, b) w v e in
            let (m, b', added, inside, long) = recv_round-Advances connid buffer cnt r w u round in
            inr (m, b', u, inside, long, subst (λ t. next t u ≡ (done (n, b), v)) added e')

    recv_loop-length :
        (rounds : ℕ) (connid : ℤ) (buffer : Bytes) (cnt n : ℕ) (b : Bytes) (w v : World (Telit2 F))
        → length buffer < 2 ^ 31
        → cnt ≤ length buffer
        → recv_loop notice rounds connid buffer cnt w ≡ (done (n, b), v)
        → (n ≡ length buffer) × (length b ≡ length buffer)
    unfolding recv_loop
    recv_loop-length zero connid buffer cnt n b w v small h e = absurd cc
    recv_loop-length (suc rounds) connid buffer cnt n b w v small h e =
        elim (recv_loop-step rounds connid buffer cnt n b w v e) [
          | inl (stop, count, same) ↦
              (omega (arith, count, stop, h, int_bound-small (length buffer) small), ap length same)
          | inr (m, b', u, inside, long, e') ↦
              let (full, size) =
                recv_loop-length rounds connid b' (cnt + m) n b u v (omega (arith, long, small))
                  (omega (arith, long, inside)) e' in
              (full ∙ long, size ∙ long)
        ]

    -- Where telit2_socket_recv returns a count for a buffer of fewer than 2 ^ 31 bytes, whatever
    -- the modem answers and however many rounds are allowed, the count is the whole length of the
    -- buffer, and the buffer keeps its length.
    pub recv-length :
        (rounds : ℕ) (connid : ℤ) (buffer : Bytes) (n : ℕ) (b : Bytes) (w v : World (Telit2 F))
        → length buffer < 2 ^ 31
        → telit2_socket_recv notice rounds connid buffer w ≡ (done (n, b), v)
        → (n ≡ length buffer) × (length b ≡ length buffer)
    unfolding telit2_socket_recv
    recv-length rounds connid buffer n b w v small e =
        recv_loop-length rounds connid buffer 0 n b w v small (omega arith) e
