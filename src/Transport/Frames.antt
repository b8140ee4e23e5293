-- ===== src/Transport/Frames.antt =====
-- esp_hap_network_io.c: the reading of one packet, and its delivery.
use nina_fw_homekit.Prelude.{
  ℕ, zero, suc, ◌+◌, ◌-◌, ◌%◌, ◌^◌, ◌≤◌, ◌<◌, ◌≡◌, refl, sym, ap, ◌∙◌, arith, true, false, List, [],
  ◌∷◌, ◌++◌, append-nil, append_assoc, length, take, drop, min, ltb, length-drop, take-append-drop,
  take-append_eq, drop-append_eq, take_all, drop_all, dec_lt, ◌==◌,
}
use nina_fw_homekit.Prelude.Strings.{overlay}
use nina_fw_homekit.ByteConvert.{get_u16_le, put_u16_le}
use nina_fw_homekit.ByteConvert.RoundTrip.{get-put}
use nina_fw_homekit.Crypto.{auth_tag_len}
use nina_fw_homekit.Transport.{
  Socket, DecryptFrame, max_nw_frame_size, deliver, read_loop, read_packet,
}

take-append_le : (n : ℕ) (xs ys : List ℕ) → n ≤ length xs → take n (xs ++ ys) ≡ take n xs
take-append_le zero xs ys h = refl
take-append_le (suc n) [] ys h = absurd (omega arith)
take-append_le (suc n) (x ∷ xs) ys h = ap (◌∷◌ x) (take-append_le n xs ys (omega arith))

drop-append_le : (n : ℕ) (xs ys : List ℕ) → n ≤ length xs → drop n (xs ++ ys) ≡ drop n xs ++ ys
drop-append_le zero xs ys h = refl
drop-append_le (suc n) [] ys h = absurd (omega arith)
drop-append_le (suc n) (x ∷ xs) ys h = drop-append_le n xs ys (omega arith)

module _ (k : Socket) where
  open k use {Net, pending, recv}

  -- The bytes that a read takes are the front of what is pending.
  recv_front :
      (n : ℕ) (net : Net) (xs ys : List ℕ)
      → pending net ≡ xs ++ ys
      → n ≤ length xs
      → ((recv n net).0 ≡ take (length (recv n net).0) xs)
        × (pending (recv n net).1 ≡ drop (length (recv n net).0) xs ++ ys)
  recv_front n net xs ys e h =
      let got = (recv n net).0 in
      let left = pending (recv n net).1 in
      let split : got ++ left ≡ xs ++ ys = k.recv-pending n net ∙ e in
      let short : length got ≤ length xs = omega (arith, k.recv_size n net) in
      (
        sym (take-append_eq (length got) got left refl)
            ∙ ap (take (length got)) split
            ∙ take-append_le (length got) xs ys short,
        sym (drop-append_eq (length got) got left refl)
            ∙ ap (drop (length got)) split
            ∙ drop-append_le (length got) xs ys short,
      )

  read_loop_step :
      (fuel n : ℕ) (acc : List ℕ) (net : Net)
      → 0 < n
      → 0 < length (recv n net).0
      → read_loop k (suc fuel) n acc net
        ≡ read_loop k fuel (n - length (recv n net).0) (acc ++ (recv n net).0) (recv n net).1
  unfolding read_loop
  read_loop_step fuel n acc net h r =
      let more : (n == 0) ≡ false = ground arith in
      let read : (length (recv n net).0 == 0) ≡ false = ground arith in rw (more, read)

  read_loop_lem :
      (fuel : ℕ) (xs ys acc : List ℕ) (net : Net)
      → pending net ≡ xs ++ ys
      → length xs ≤ fuel
      → let (ok, packet, net') = read_loop k fuel (length xs) acc net in
        (ok ≡ true) × (packet ≡ acc ++ xs) × (pending net' ≡ ys)
  unfolding read_loop
  read_loop_lem zero [] ys acc net e h = (refl, sym (append-nil acc), e)
  read_loop_lem zero (x ∷ xs) ys acc net e h = absurd (omega arith)
  read_loop_lem (suc fuel) [] ys acc net e h = (refl, sym (append-nil acc), e)
  read_loop_lem (suc fuel) (x ∷ xs) ys acc net e h =
      let n = suc (length xs) in
      let got = (recv n net).0 in
      let (front, left) = recv_front n net (x ∷ xs) ys e (omega arith) in
      let size = k.recv_size n net in
      let some_left : 0 < length (pending net) = omega (arith, ap length e) in
      let some_read = k.recv_some n net (omega arith) some_left in
      let back = drop (length got) (x ∷ xs) in
      let rest : n - length got ≡ length back = omega (arith, length-drop (length got) (x ∷ xs)) in
      let whole : (acc ++ got) ++ back ≡ acc ++ (x ∷ xs) =
        append_assoc acc got back
        ∙ ap (λ g. acc ++ (g ++ back)) front
        ∙ ap (λ t. acc ++ t) (take-append-drop (length got) (x ∷ xs)) in
      let again =
        read_loop_lem fuel back ys (acc ++ got) (recv n net).1 left
          (omega (arith, length-drop (length got) (x ∷ xs))) in
      rw (read_loop_step fuel n acc net (omega arith) some_read, rest)
        (again.0, again.1 ∙ whole, again.2)

  -- A packet that arrives with its length in one piece.
  pub read_packet_lem :
      (f : DecryptFrame) (n : ℕ) (body rest : List ℕ) (net : Net)
      → length body ≡ n + auth_tag_len
      → n ≤ max_nw_frame_size
      → pending net ≡ put_u16_le (n % 2 ^ 16) ++ (body ++ rest)
      → 2 ≤ length (recv 2 net).0
      → (bytes : List ℕ) × (net' : Net) × (read_packet k f net
          ≡ (true, record f { pkt_size = n; bytes_read = n; bytes = overlay body bytes }, net'))
        × (pending net' ≡ rest)
  unfolding read_packet put_u16_le
  read_packet_lem f n body rest net size small e whole =
      let header = put_u16_le (n % 2 ^ 16) in
      let got = (recv 2 net).0 in
      let (front, left) = recv_front 2 net header (body ++ rest) e (omega arith) in
      let two : length got ≡ 2 = omega (arith, whole, k.recv_size 2 net) in
      let same : got ≡ header = front ∙ ap (λ n. take n header) two in
      let left_body : pending (recv 2 net).1 ≡ body ++ rest =
        left ∙ ap (λ n. drop n header ++ (body ++ rest)) two in
      let value : get_u16_le got ≡ n = ap get_u16_le same ∙ (get-put n).0 ∙ omega arith in
      let count : (n + auth_tag_len) % 2 ^ 16 ≡ length body = omega (arith, size) in
      let (ok, packet, last) =
        read_loop_lem (length body) body rest [] (recv 2 net).1 left_body (omega arith) in
      let long : ltb (length got) 2 ≡ false = ground (arith, two) in
      let untagged : (length body % 2 ^ 16 + 2 ^ 16 - auth_tag_len) % 2 ^ 16 ≡ n =
        omega (arith, size) in
      (
        overlay got f.bytes,
        (read_loop k (length body) (length body) [] (recv 2 net).1).2,
        rw (long, value, count, ok, packet, untagged) refl,
        last,
      )

take-take_le : (m n : ℕ) (xs : List ℕ) → m ≤ n → take m (take n xs) ≡ take m xs
take-take_le zero n xs h = refl
take-take_le (suc m) zero xs h = absurd (omega arith)
take-take_le (suc m) (suc n) [] h = refl
take-take_le (suc m) (suc n) (x ∷ xs) h = ap (◌∷◌ x) (take-take_le m n xs (omega arith))

take-drop : (m n s : ℕ) (xs : List ℕ) → s ≡ m + n → take n (drop m xs) ≡ drop m (take s xs)
take-drop zero n s xs h = let e : n ≡ s = omega (arith, h) in ap (λ k. take k xs) e
take-drop (suc m) n zero xs h = absurd (omega (arith, h))
take-drop (suc m) n (suc s) [] h = take_all n [] (omega arith)
take-drop (suc m) n (suc s) (x ∷ xs) h = take-drop m n s xs (omega (arith, h))

drop-drop : (m n s : ℕ) (xs : List ℕ) → s ≡ n + m → drop m (drop n xs) ≡ drop s xs
drop-drop m zero s xs h = let e : m ≡ s = omega (arith, h) in ap (λ k. drop k xs) e
drop-drop m (suc n) zero xs h = absurd (omega (arith, h))
drop-drop m (suc n) (suc s) [] h = drop_all m [] (omega arith)
drop-drop m (suc n) (suc s) (x ∷ xs) h = drop-drop m n s xs (omega (arith, h))

-- Taking no more than there is.
take-min : (n : ℕ) (xs : List ℕ) → take (min (length xs) n) xs ≡ take n xs
take-min n xs = elim (dec_lt n (length xs)) [
  | yes h ↦ let e : min (length xs) n ≡ n = omega arith in ap (λ k. take k xs) e
  | no h ↦ take_all (min (length xs) n) xs (omega arith) ∙ sym (take_all n xs (omega arith))
]

drop-min : (n : ℕ) (xs : List ℕ) → drop (min (length xs) n) xs ≡ drop n xs
drop-min n xs = elim (dec_lt n (length xs)) [
  | yes h ↦ let e : min (length xs) n ≡ n = omega arith in ap (λ k. drop k xs) e
  | no h ↦ drop_all (min (length xs) n) xs (omega arith) ∙ sym (drop_all n xs (omega arith))
]

-- The decrypted bytes that a frame still has to deliver.
abbrev pub IsHolding : DecryptFrame → List ℕ → Type 0
IsHolding f m =
    (f.pkt_size ≡ f.bytes_read + length m) × (take (length m) (drop f.bytes_read f.bytes) ≡ m)

pub deliver_lem :
    (buf_size : ℕ) (f : DecryptFrame) (m : List ℕ)
    → IsHolding f m
    → ((deliver buf_size f).0 ≡ take buf_size m)
      × IsHolding (deliver buf_size f).1 (drop buf_size m)
unfolding deliver
deliver_lem buf_size f m (size, held) =
    let left : f.pkt_size - f.bytes_read ≡ length m = omega (arith, size) in
    let k = min (length m) buf_size in
    let n = length (drop buf_size m) in
    let sum : k + n ≡ length m = omega (arith, length-drop buf_size m) in
    let text = drop f.bytes_read f.bytes in
    let front : take k text ≡ take buf_size m =
      sym (take-take_le k (length m) text (omega arith)) ∙ ap (take k) held ∙ take-min buf_size m in
    let back : take n (drop (f.bytes_read + k) f.bytes) ≡ drop buf_size m =
      ap (take n) (sym (drop-drop k f.bytes_read (f.bytes_read + k) f.bytes refl))
      ∙ take-drop k n (length m) text (sym sum)
      ∙ ap (drop k) held
      ∙ drop-min buf_size m in
    let all : f.pkt_size ≡ f.bytes_read + k + n = omega (arith, size, sum) in
    rw left (front, (all, back))
