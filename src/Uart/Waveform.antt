-- ===== src/Uart/Waveform.antt =====
-- What a pin shows at each time while a sent wave is played on it.
use hardware_in_the_loop.Base.{
  ℕ, zero, suc, ◌+◌, ◌-◌, ◌*◌, ◌/◌, ◌%◌, ◌^◌, ◌≤◌, ◌<◌, [], ◌∷◌, ◌++◌, ltb, ◌≡◌, ◌∙◌, ap, le→ltb,
  lt→ltb, arith, if◌then◌else◌,
}
use mathlib.Core.List.{append_assoc}
use hardware_in_the_loop.Uart.{PinLevel, low, high, Wave, Pin, level_of, data_bits, send_byte}

-- The level at a time since the start of the wave; after the last segment the line is idle, high.
abbrev pub level_at : Wave → ℕ → PinLevel
level_at [] t = high
level_at ((l, d) ∷ w) t = if ltb t d then l else level_at w (t - d)

-- From time `s` on, the pin shows the wave.
abbrev pub Plays : Pin → ℕ → Wave → Type 0
Plays pin s w = (t : ℕ) → s ≤ t → pin t ≡ level_at w (t - s)

in_segment : (l : PinLevel) (d : ℕ) (w : Wave) (t : ℕ) → t < d → level_at ((l, d) ∷ w) t ≡ l
in_segment l d w t h = rw (lt→ltb t d h)

past_segment :
    (l : PinLevel) (d : ℕ) (w : Wave) (t : ℕ) → d ≤ t → level_at ((l, d) ∷ w) t ≡ level_at w (t - d)
past_segment l d w t h = rw (le→ltb t d h)

bits_at :
    (period b i n k : ℕ) (w : Wave) (t : ℕ)
    → k < n
    → k * period ≤ t
    → t < suc k * period
    → level_at (data_bits period b i n ++ w) t ≡ level_of (b / 2 ^ (i + k) % 2)
unfolding data_bits
bits_at period b i zero k w t h lo hi = absurd (omega arith)
bits_at period b i (suc n) zero w t h lo hi =
    in_segment _ period _ t (omega arith) ∙ ap (λ j. level_of (b / 2 ^ j % 2)) {x = i} (omega arith)
bits_at period b i (suc n) (suc k) w t h lo hi =
    past_segment _ period _ t (omega arith)
    ∙ bits_at period b (i + 1) n k w (t - period) (omega arith) (omega arith) (omega arith)
    ∙ ap (λ j. level_of (b / 2 ^ j % 2)) {x = i + 1 + k} (omega arith)

bits_past :
    (period b i n : ℕ) (w : Wave) (t : ℕ)
    → n * period ≤ t
    → level_at (data_bits period b i n ++ w) t ≡ level_at w (t - n * period)
unfolding data_bits
bits_past period b i zero w t lo = ap (level_at w) (omega arith)
bits_past period b i (suc n) w t lo =
    past_segment _ period _ t (omega arith)
    ∙ bits_past period b (i + 1) n w (t - period) (omega arith)
    ∙ ap (level_at w) (omega arith)

module _ (period b : ℕ) (w : Wave) where
  frame : Wave
  frame = send_byte period b ++ w

  frame_parts : frame ≡ (low, period) ∷ (data_bits period b 0 8 ++ ((high, period) ∷ w))
  unfolding frame send_byte
  frame_parts =
      ap (λ v. (low, period) ∷ v) (append_assoc (data_bits period b 0 8) ((high, period) ∷ []) w)

  pub frame_start : (t : ℕ) → t < period → level_at (send_byte period b ++ w) t ≡ low
  unfolding frame
  frame_start t h = ap (λ v. level_at v t) frame_parts ∙ in_segment low period _ t h

  pub frame_bit :
      (k t : ℕ)
      → k < 8
      → suc k * period ≤ t
      → t < suc (suc k) * period
      → level_at (send_byte period b ++ w) t ≡ level_of (b / 2 ^ k % 2)
  unfolding frame
  frame_bit k t h lo hi =
      ap (λ v. level_at v t) frame_parts
      ∙ past_segment low period _ t (omega arith)
      ∙ bits_at period b 0 8 k _ (t - period) h (omega arith) (omega arith)
      ∙ ap (λ j. level_of (b / 2 ^ j % 2)) {x = 0 + k} (omega arith)

  frame_after_bits :
      (t : ℕ)
      → 9 * period ≤ t
      → level_at (send_byte period b ++ w) t ≡ level_at ((high, period) ∷ w) (t - 9 * period)
  unfolding frame
  frame_after_bits t lo =
      ap (λ v. level_at v t) frame_parts
      ∙ past_segment low period _ t (omega arith)
      ∙ bits_past period b 0 8 _ (t - period) (omega arith)
      ∙ ap (level_at ((high, period) ∷ w)) (omega arith)

  pub frame_stop :
      (t : ℕ) → 9 * period ≤ t → t < 10 * period → level_at (send_byte period b ++ w) t ≡ high
  frame_stop t lo hi = frame_after_bits t lo ∙ in_segment high period w _ (omega arith)

  pub frame_end :
      (t : ℕ)
      → 10 * period ≤ t
      → level_at (send_byte period b ++ w) t ≡ level_at w (t - 10 * period)
  frame_end t lo =
      frame_after_bits t (omega arith)
      ∙ past_segment high period w _ (omega arith)
      ∙ ap (level_at w) (omega arith)
