-- ===== src/Telemetry/Frame.antt =====
-- Packets of the documented layout are accepted with their samples; damaged ones are not.
use hardware_in_the_loop.Base.{
  ℕ, ◌+◌, ◌*◌, ◌/◌, ◌%◌, ◌^◌, ◌<◌, Bool, false, ◌||◌, ◌≡◌, ◌≢◌, refl, sym, ◌∙◌, ap, List, [], ◌∷◌,
  ◌++◌, length, drop, get_or, All, ◌==◌, arith, bit_or, if◌then◌else◌, length-append,
  take-append_at, All-append, ne→==, eq→==, get_or-append, le→ltb,
}
use mathlib.Core.List.{append_assoc}
use mathlib.Core.Path.{ap₂}
use hardware_in_the_loop.Base.Bits.{bit_or_high_byte}
use hardware_in_the_loop.Telemetry.{
  Sample, ignored, bad_crc, accepted, crc16, frame_length, sample_bytes, hdr_size, sample_at,
  samples_at, check_crc, decode,
}
use hardware_in_the_loop.Telemetry.Crc.{IsByte, crc16-fits, crc16_detects}

abbrev pub u16_bytes : ℕ → List ℕ
u16_bytes v = v % 256 ∷ v / 256 ∷ []

abbrev pub u32_bytes : ℕ → List ℕ
u32_bytes v = v % 256 ∷ v / 256 % 256 ∷ v / 65536 % 256 ∷ v / 16777216 ∷ []

-- A sample in the layout of telemetry.h: u32, u16 and five float32, little-endian.
pub sample_layout : Sample → List ℕ
sample_layout s =
    u32_bytes s.t_cycles
    ++ (u16_bytes s.epoch
        ++ (u32_bytes s.ia
            ++ (u32_bytes s.ib
                ++ (u32_bytes s.flux_a ++ (u32_bytes s.flux_b ++ u32_bytes s.speed)))))

pub samples_layout : List Sample → List ℕ
samples_layout [] = []
samples_layout (s ∷ ss) = sample_layout s ++ samples_layout ss

pub record FitsSample (s : Sample) : Type 0 where
  pub t_cycles_fits : s.t_cycles < 2 ^ 32
  pub epoch_fits : s.epoch < 2 ^ 16
  pub ia_fits : s.ia < 2 ^ 32
  pub ib_fits : s.ib < 2 ^ 32
  pub flux_a_fits : s.flux_a < 2 ^ 32
  pub flux_b_fits : s.flux_b < 2 ^ 32
  pub speed_fits : s.speed < 2 ^ 32

u32_read :
    (v : ℕ) → v % 256 + v / 256 % 256 * 256 + (v / 65536 % 256 + v / 16777216 * 256) * 65536 ≡ v
u32_read v = omega arith

u16_read : (v : ℕ) → v % 256 + v / 256 * 256 ≡ v
u16_read v = omega arith

sample_at-layout : (s : Sample) (rest : List ℕ) → sample_at (sample_layout s ++ rest) ≡ s
unfolding sample_at sample_layout
sample_at-layout s rest = λ i. record {
  t_cycles = u32_read s.t_cycles i;
  epoch = u16_read s.epoch i;
  ia = u32_read s.ia i;
  ib = u32_read s.ib i;
  flux_a = u32_read s.flux_a i;
  flux_b = u32_read s.flux_b i;
  speed = u32_read s.speed i;
}

drop-sample : (s : Sample) (rest : List ℕ) → drop sample_bytes (sample_layout s ++ rest) ≡ rest
unfolding sample_layout
drop-sample s rest = refl

samples_at-layout :
    (ss : List Sample) (rest : List ℕ) → samples_at (length ss) (samples_layout ss ++ rest) ≡ ss
unfolding samples_at samples_layout
samples_at-layout [] rest = refl
samples_at-layout (s ∷ ss) rest =
    ap (λ bs. sample_at bs ∷ samples_at (length ss) (drop sample_bytes bs))
      (append_assoc (sample_layout s) (samples_layout ss) rest)
    ∙ ap
        (λ x.
          x
          ∷ samples_at (length ss)
              (drop sample_bytes (sample_layout s ++ (samples_layout ss ++ rest))))
        (sample_at-layout s (samples_layout ss ++ rest))
    ∙ ap (λ bs. s ∷ samples_at (length ss) bs) (drop-sample s (samples_layout ss ++ rest))
    ∙ ap (λ l. s ∷ l) (samples_at-layout ss rest)

length-samples_layout : (ss : List Sample) → length (samples_layout ss) ≡ length ss * sample_bytes
unfolding samples_layout sample_layout
length-samples_layout [] = refl
length-samples_layout (s ∷ ss) = omega (arith, length-samples_layout ss)

-- The ten bytes of the header: the sync word, five bytes that the receiver does not read (version,
-- flags and sequence number), and the number of samples.
pub record Header : Type 0 where
  pub m4 : ℕ
  pub m5 : ℕ
  pub m6 : ℕ
  pub m7 : ℕ
  pub m8 : ℕ
  pub count : ℕ

abbrev pub header_bytes : Header → List ℕ
header_bytes h = 0x48 ∷ 0x49 ∷ 0x4C ∷ 0x5A ∷ h.m4 ∷ h.m5 ∷ h.m6 ∷ h.m7 ∷ h.m8 ∷ h.count ∷ []

-- A packet with a payload and a stated checksum.
abbrev pub packet : Header → List ℕ → ℕ → List ℕ
packet h payload crc = (header_bytes h ++ payload) ++ u16_bytes crc

module _ (h : Header) (payload : List ℕ) (crc : ℕ)
    (full : length payload ≡ h.count * sample_bytes) where
  length-body : hdr_size + h.count * sample_bytes ≡ length (header_bytes h ++ payload)
  length-body = omega arith

  length-packet : length (packet h payload crc) ≡ frame_length h.count
  length-packet = omega (arith, length-append {0} (header_bytes h ++ payload) (u16_bytes crc))

  stated_crc :
      crc < 65536
      → bit_or
          (get_or (packet h payload crc) (hdr_size + h.count * sample_bytes) 0)
          (get_or (packet h payload crc) (hdr_size + h.count * sample_bytes + 1) 0 * 256)
        ≡ crc
  stated_crc fits =
      rw
        (
          get_or-append (header_bytes h ++ payload) (u16_bytes crc)
              (hdr_size + h.count * sample_bytes) 0 0 (omega arith),
          get_or-append (header_bytes h ++ payload) (u16_bytes crc)
              (hdr_size + h.count * sample_bytes + 1) 1 0 (omega arith),
        )
        (bit_or_high_byte (crc / 256) (crc % 256) (omega arith) ∙ omega arith)

  check-packet :
      crc < 65536
      → check_crc (packet h payload crc) h.count ≡ (
          if crc16 (header_bytes h ++ payload) == crc
          then accepted (samples_at h.count (payload ++ u16_bytes crc))
          else bad_crc)
  check-packet fits =
      ap₂
        (λ bs c.
          if crc16 bs == c
          then accepted (samples_at h.count (payload ++ u16_bytes crc))
          else bad_crc)
        (take-append_at (hdr_size + h.count * sample_bytes) (header_bytes h ++ payload)
          (u16_bytes crc) length-body)
        (stated_crc fits)

  -- What the receiver makes of a packet of full length, by its checksum.
  decode-packet :
      crc < 65536
      → decode (packet h payload crc) ≡ (
          if crc16 (header_bytes h ++ payload) == crc
          then accepted (samples_at h.count (payload ++ u16_bytes crc))
          else bad_crc)
  unfolding decode
  decode-packet fits =
      ap₂
        (λ (a b : Bool).
          if a || false
          then ignored
          else if b
          then ignored
          else check_crc (packet h payload crc) h.count)
        (le→ltb (length (packet h payload crc)) (hdr_size + 2) (omega (arith, length-packet)))
        (le→ltb (length (packet h payload crc)) (frame_length h.count)
          (omega (arith, length-packet)))
      ∙ check-packet fits

sample_layout-bytes : (s : Sample) → FitsSample s → All IsByte (sample_layout s)
unfolding sample_layout
sample_layout-bytes s h = omega arith

samples_layout-bytes : (ss : List Sample) → All FitsSample ss → All IsByte (samples_layout ss)
unfolding samples_layout sample_layout
samples_layout-bytes [] h = tt
samples_layout-bytes (s ∷ ss) h =
    All-append IsByte (sample_layout s) (samples_layout ss) (sample_layout-bytes s h.0)
      (samples_layout-bytes ss h.1)

-- A packet of the documented layout, with the checksum of its header and samples, is accepted with
-- exactly the samples that were put in it: for any number of samples below 256 whose fields fit
-- their widths, and any values of the header bytes that the receiver does not read.
pub decode_layout :
    (h : Header) (ss : List Sample)
    → All IsByte (header_bytes h)
    → All FitsSample ss
    → h.count ≡ length ss
    → decode (packet h (samples_layout ss) (crc16 (header_bytes h ++ samples_layout ss)))
      ≡ accepted ss
decode_layout h ss bytes fit count =
    decode-packet h (samples_layout ss) (crc16 (header_bytes h ++ samples_layout ss))
      (length-samples_layout ss ∙ ap (λ k. k * sample_bytes) (sym count))
      (crc16-fits (header_bytes h ++ samples_layout ss) (
        All-append IsByte (header_bytes h) (samples_layout ss) bytes (samples_layout-bytes ss fit)))
    ∙ rw (eq→== (crc16 (header_bytes h ++ samples_layout ss)) _ refl) (
        ap accepted (
          ap
            (λ n.
              samples_at n
                (samples_layout ss ++ u16_bytes (crc16 (header_bytes h ++ samples_layout ss))))
            count
          ∙ samples_at-layout ss (u16_bytes (crc16 (header_bytes h ++ samples_layout ss)))))

-- If one byte of the samples of such a packet is changed on the way, the packet is counted as
-- damaged.
pub decode_damaged :
    (h : Header) (xs ys : List ℕ) (a b : ℕ)
    → All IsByte (header_bytes h)
    → All IsByte xs
    → All IsByte ys
    → IsByte a
    → IsByte b
    → a ≢ b
    → length (xs ++ (b ∷ ys)) ≡ h.count * sample_bytes
    → decode (packet h (xs ++ (b ∷ ys)) (crc16 (header_bytes h ++ (xs ++ (a ∷ ys))))) ≡ bad_crc
decode_damaged h xs ys a b hb hx hy ha hb' ne full =
    let (fits, differs) =
      crc16_detects (header_bytes h ++ xs) ys a b (All-append IsByte (header_bytes h) xs hb hx) hy
        ha hb' ne in
    decode-packet h (xs ++ (b ∷ ys)) (crc16 (header_bytes h ++ (xs ++ (a ∷ ys)))) full fits
    ∙ rw (ne→== (crc16 (header_bytes h ++ (xs ++ (b ∷ ys)))) _ (λ e. differs (sym e)))
