-- ===== src/Hilbin/Parse.antt =====
-- parse_hilbin of hilbin_vs_c.py and of hilbin_check.py, over the bytes of a file. JSON and the two
-- kinds of time are parameters; a float of 4 bytes is its bit pattern. An exception is `none`.
use hardware_in_the_loop.Base.{
  ℕ, zero, suc, ◌+◌, ◌*◌, ◌/◌, Bool, true, false, ◌&&◌, Option, none, some, List, [], ◌∷◌,
  if◌then◌else◌, ltb, ◌==◌, length, take, drop, get_or, map,
}

infixl 20 ◌>>=◌
abbrev pub ◌>>=◌ : {A B : Type 0} → Option A → (A → Option B) → Option B
none >>= f = none
some a >>= f = f a

-- HILDATA
abbrev pub magic : List ℕ
magic = 0x48 ∷ 0x49 ∷ 0x4C ∷ 0x44 ∷ 0x41 ∷ 0x54 ∷ 0x41 ∷ []

abbrev pub same_bytes : List ℕ → List ℕ → Bool
same_bytes [] [] = true
same_bytes (x ∷ xs) (y ∷ ys) = x == y && same_bytes xs ys
same_bytes _ _ = false

-- `<I`
abbrev pub word_of : List ℕ → ℕ
word_of bs = get_or bs 0 0 + 256 * get_or bs 1 0 + 65536 * get_or bs 2 0 + 16777216 * get_or bs 3 0

-- `struct.unpack_from("<I", data, pos)[0]`
unfoldable pub unpack_word : List ℕ → ℕ → Option ℕ
unpack_word bytes pos =
    if ltb (length bytes) (pos + 4) then none else some (word_of (drop pos bytes))

-- `(n + 7) & ~7`
abbrev pub align_8 : ℕ → ℕ
align_8 n = (n + 7) / 8 * 8

-- The fields of a sample: t, ia, ib, flux_a, flux_b, speed.
pub record Sample : Type 0 where
  pub t : ℕ
  pub ia : ℕ
  pub ib : ℕ
  pub flux_a : ℕ
  pub flux_b : ℕ
  pub speed : ℕ

abbrev pub sample_of : List ℕ → Sample
sample_of bs = record {
  t = word_of bs;
  ia = word_of (drop 4 bs);
  ib = word_of (drop 8 bs);
  flux_a = word_of (drop 12 bs);
  flux_b = word_of (drop 16 bs);
  speed = word_of (drop 20 bs);
}

-- So many records of `size` bytes, one after the other.
unfoldable pub records : {A : Type 0} → (List ℕ → A) → ℕ → ℕ → List ℕ → List A
records read size zero bs = []
records read size (suc n) bs = read bs ∷ records read size n (drop size bs)

-- `np.frombuffer(data, count=count, offset=pos)`
unfoldable pub from_buffer : {A : Type 0} → (List ℕ → A) → ℕ → ℕ → List ℕ → ℕ → Option (List A)
unfolding records
from_buffer read size count bytes pos =
    if ltb (length bytes) (pos + count * size)
    then none
    else some (records read size count (drop pos bytes))

pub record PwmEvent (T : Type 0) : Type 0 where
  pub t : T
  pub a : ℕ
  pub b : ℕ
  pub c : ℕ

pub record Capture (T Meta : Type 0) : Type 0 where
  pub meta : Meta
  pub fpga : List Sample
  pub pwm : List (PwmEvent T)

-- `json`: the metadata; `seconds`: a version 1 time; `cycles`: a version 2 time.
module _ {T Meta : Type 0} (json : List ℕ → Option Meta) (seconds : ℕ → T)
    (cycles : Meta → ℕ → T) where
  abbrev pub time_of : ℕ → Meta → ℕ → T
  time_of version meta word = if ltb version 2 then seconds word else cycles meta word

  abbrev pub event_of : ℕ → Meta → List ℕ → PwmEvent T
  event_of version meta bs = record {
    t = time_of version meta (word_of bs);
    a = get_or bs 4 0;
    b = get_or bs 5 0;
    c = get_or bs 6 0;
  }

  -- What both scripts read.
  unfoldable pub parse_hilbin : List ℕ → Option (Capture T Meta)
  unfolding unpack_word from_buffer
  parse_hilbin bytes =
      if same_bytes (take 7 bytes) magic
      then (do
        meta_len ← unpack_word bytes 8
        meta ← json (take meta_len (drop 12 bytes))
        let pos = align_8 (12 + meta_len)
        sample_count ← unpack_word bytes pos
        samples ← from_buffer sample_of 28 sample_count bytes (pos + 4)
        let pwm_pos = pos + 4 + sample_count * 28
        pwm_count ← unpack_word bytes pwm_pos
        events ← from_buffer (event_of (get_or bytes 7 0) meta) 8 pwm_count bytes (pwm_pos + 4)
        some (record { meta = meta; fpga = samples; pwm = events }))
      else none

  -- What the check takes of it: the times.
  unfoldable pub parse_times : List ℕ → Option (List ℕ × List T)
  unfolding parse_hilbin
  parse_times bytes = do
    capture ← parse_hilbin bytes
    some (map (λ s. s.t) capture.fpga, map (λ e. e.t) capture.pwm)
