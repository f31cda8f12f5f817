-- ===== src/Serial/Protocol.antt =====
-- The register commands over the wire, against a device that replies as the protocol says.
use hardware_in_the_loop.Base.{
  ℕ, zero, suc, ◌+◌, ◌*◌, ◌/◌, ◌%◌, ◌≤◌, ◌<◌, ◌≡◌, refl, sym, ◌∙◌, ap, List, [], ◌∷◌, ◌++◌, map,
  length, All, arith,
}
use mathlib.Core.List.{append_assoc}
use mathlib.Core.Path.{subst}
use native.Mathlib.Nat.{le_trans}
use hardware_in_the_loop.Base.Int.{ℤ, pos, negsuc}
use hardware_in_the_loop.Uart.{
  Pin, Wave, done, send_bytes, send_byte, recv_byte, recv_bytes, default_timeout,
}
use hardware_in_the_loop.Uart.RoundTrip.{Listens, recv_byte-Listens, recv_bytes-Listens}
use hardware_in_the_loop.Serial.RegAddr
use hardware_in_the_loop.Serial.{
  rsp_single, rsp_all, byte_at, big_endian, value_to_bytes, read_register, read_registers, read_all,
  read_all_timeout,
}
use hardware_in_the_loop.Serial.Words.{word_of, Fits, bytes_to_value-value_to_bytes}

send_bytes-append :
    (period : ℕ) (xs ys : List ℕ)
    → send_bytes period (xs ++ ys) ≡ send_bytes period xs ++ send_bytes period ys
unfolding send_bytes
send_bytes-append period [] ys = refl
send_bytes-append period (x ∷ xs) ys =
    ap (λ w. send_byte period x ++ w) (send_bytes-append period xs ys)
    ∙ sym (append_assoc (send_byte period x) (send_bytes period xs) (send_bytes period ys))

byte_at-byte : (i : ℕ) (v : ℤ) → byte_at i v % 256 ≡ byte_at i v
byte_at-byte i (pos m) = omega arith
byte_at-byte i (negsuc m) = omega arith

big_endian-bytes : (n : ℕ) (v : ℤ) → map (λ b. b % 256) (big_endian n v) ≡ big_endian n v
unfolding big_endian
big_endian-bytes zero v = refl
big_endian-bytes (suc n) v =
    ap (λ b. b ∷ map (λ b. b % 256) (big_endian n v)) (byte_at-byte n v)
    ∙ ap (λ bs. byte_at n v ∷ bs) (big_endian-bytes n v)

length-big_endian : (n : ℕ) (v : ℤ) → length (big_endian n v) ≡ n
unfolding big_endian
length-big_endian zero v = refl
length-big_endian (suc n) v = ap suc (length-big_endian n v)

module _ (pin : Pin) (period timeout : ℕ) (big : 10 ≤ period)
    (patient : period / 10 < timeout) where
  -- A word that the device sends is received as its bytes.
  recv_word :
      (words : ℕ) (v : ℤ) (now s : ℕ) (w : Wave)
      → Listens pin period timeout now s (send_bytes period (value_to_bytes words v) ++ w)
      → (e s' : ℕ) × (recv_bytes words pin period timeout now ≡ done (value_to_bytes words v) e)
        × Listens pin period timeout e s' w
  unfolding value_to_bytes
  recv_word words v now s w l =
      let (e, s', got, l') =
        recv_bytes-Listens pin period timeout big patient (value_to_bytes words v) now s w l in
      (
        e,
        s',
        ap (λ n. recv_bytes n pin period timeout now) (sym (length-big_endian words _))
            ∙ got
            ∙ ap (λ bs. done bs e) (big_endian-bytes words _),
        l',
      )

  recv_head :
      (b : ℕ) (bs : List ℕ) (now s : ℕ) (w : Wave)
      → Listens pin period timeout now s (send_bytes period (b ∷ bs) ++ w)
      → (e s' : ℕ) × (recv_byte pin period timeout now ≡ done (b % 256) e)
        × Listens pin period timeout e s' (send_bytes period bs ++ w)
  unfolding send_bytes
  recv_head b bs now s w l =
      let (e, got, l') =
        recv_byte-Listens pin period timeout big patient now s b (send_bytes period bs ++ w) (
          subst (Listens pin period timeout now s)
            (append_assoc (send_byte period b) (send_bytes period bs) w) l) in
      (e, s + 10 * period, got, l')

-- Reading a register from a device that replies with the response byte, an address byte and the
-- bytes of a value in range gives that header, that address and the two's complement word of the
-- value. The period is at least 10 ns and the reply starts within the default timeout.
pub read_register_reply :
    (pin : Pin) (period words addr now s : ℕ) (v : ℤ) (w : Wave)
    → 10 ≤ period
    → Fits (words * 8) v
    → Listens pin period
        (default_timeout period)
        now
        s
        (send_bytes period (rsp_single ∷ addr ∷ value_to_bytes words v) ++ w)
    → (e : ℕ) × (read_register pin period words now
        ≡ done
            (record { header = rsp_single; address = addr % 256; value = word_of (words * 8) v })
            e)
unfolding read_register
read_register_reply pin period words addr now s v w big fits l =
    let (e, s', header, l') =
      recv_head pin period (default_timeout period) big (omega arith) rsp_single _ now s w l in
    let (e', s'', address, l'') =
      recv_head pin period (default_timeout period) big (omega arith) addr _ e s' w l' in
    let (e3, _, value, _) =
      recv_word pin period (default_timeout period) big (omega arith) words v e' s'' w l'' in
    (e3, rw (header, address, value, bytes_to_value-value_to_bytes words v fits))

-- The data of a full reply: the words one after the other.
abbrev pub reply_data : ℕ → List ℤ → List ℕ
reply_data words [] = []
reply_data words (v ∷ vs) = value_to_bytes words v ++ reply_data words vs

-- The dictionary that is expected of it.
abbrev pub register_words : ℕ → ℕ → List ℤ → List (ℕ × ℕ)
register_words words addr [] = []
register_words words addr (v ∷ vs) =
    (addr, word_of (words * 8) v) ∷ register_words words (addr + 1) vs

module _ (pin : Pin) (period timeout : ℕ) (big : 10 ≤ period)
    (patient : period / 10 < timeout) where
  read_registers_reply :
      (words : ℕ) (vs : List ℤ) (addr now s : ℕ) (w : Wave)
      → All (Fits (words * 8)) vs
      → Listens pin period timeout now s (send_bytes period (reply_data words vs) ++ w)
      → (e : ℕ) × (read_registers (length vs) pin period timeout words addr now
          ≡ done (register_words words addr vs) e)
  unfolding read_registers
  read_registers_reply words [] addr now s w fits l = (now, refl)
  read_registers_reply words (v ∷ vs) addr now s w fits l =
      let (e, s', got, l') =
        recv_word pin period timeout big patient words v now s
          (send_bytes period (reply_data words vs) ++ w)
          (subst (Listens pin period timeout now s)
            (ap (λ u. u ++ w)
                (send_bytes-append period (value_to_bytes words v) (reply_data words vs))
              ∙ append_assoc (send_bytes period (value_to_bytes words v))
                  (send_bytes period (reply_data words vs)) w)
            l) in
      let (e', rest) = read_registers_reply words vs (addr + 1) e s' w fits.1 l' in
      (e', rw (got, bytes_to_value-value_to_bytes words v fits.0, rest))

patience : (period words : ℕ) → 10 ≤ period → period / 10 < read_all_timeout period words
patience period words big = le_trans {m = period * 12 * 1 * 4} (omega arith) (grind arith)

-- Reading all registers from a device that replies with the response byte and the words of ten
-- values in range gives the word of each value under its address, 0 to 9. The period is at least
-- 10 ns and the reply starts within the timeout of `read_all`.
pub read_all_reply :
    (pin : Pin) (period words now s : ℕ) (vs : List ℤ) (w : Wave)
    → 10 ≤ period
    → length vs ≡ RegAddr.num_regs
    → All (Fits (words * 8)) vs
    → Listens pin period
        (read_all_timeout period words)
        now
        s
        (send_bytes period (rsp_all ∷ reply_data words vs) ++ w)
    → (e : ℕ) × (read_all pin period words now
        ≡ done (record { header = rsp_all; registers = register_words words 0 vs }) e)
unfolding read_all
read_all_reply pin period words now s vs w big ten fits l =
    let (e, s', header, l') =
      recv_head pin period (read_all_timeout period words) big (patience period words big) rsp_all _
        now s w l in
    let (e', rest) =
      read_registers_reply pin period (read_all_timeout period words) big
        (patience period words big) words vs 0 e s' w fits l' in
    (
      e',
      rw (
        header,
        ap (λ n. read_registers n pin period (read_all_timeout period words) words 0 e) (sym ten)
            ∙ rest,
      ),
    )
