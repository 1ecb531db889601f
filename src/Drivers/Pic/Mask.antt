-- ===== src/Drivers/Pic/Mask.antt =====
-- The interrupt lines that the controllers of kern/drivers/pic.c let through.
use zonix.Prelude.{
  ltb, ◌==◌, if◌then◌else◌, beq_ne, Bool-cases, ℕ, zero, suc, ◌+◌, ◌-◌, ◌*◌, ◌/◌, ◌%◌, ◌<◌, ◌≡◌,
  refl, ap, ◌∙◌, inl, inr, List, [], ◌∷◌, ◌++◌, arith,
}
use zonix.Drivers.Pic.{Pic, clear_bit, pic_enable, pic_setmask, pic1_imr, pic2_imr}

abbrev pub bit : ℕ → ℕ → ℕ
bit n zero = n % 2
bit n (suc i) = bit (n / 2) i

-- The byte last written to a port, `d` if there was none.
abbrev pub last_written : ℕ → ℕ → List (ℕ × ℕ) → ℕ
last_written port d [] = d
last_written port d (w ∷ ws) = last_written port (if w.0 == port then w.1 else d) ws

-- Whether the controllers mask the line, by the mask that each was last given; all lines are masked first.
abbrev pub masked : List (ℕ × ℕ) → ℕ → ℕ
masked ports irq =
    if ltb irq 8
    then bit (last_written pic1_imr 0xFF ports) irq
    else bit (last_written pic2_imr 0xFF ports) (irq - 8)

pub last_written-append :
    (port d : ℕ) (ws : List (ℕ × ℕ)) (w : ℕ × ℕ)
    → last_written port d (ws ++ w ∷ []) ≡ (if w.0 == port then w.1 else last_written port d ws)
last_written-append port d [] w = refl
last_written-append port d (v ∷ ws) w =
    last_written-append port (if v.0 == port then v.1 else d) ws w

bit-clear_bit : (m k i : ℕ) → bit (clear_bit m k) i ≡ (if i == k then 0 else bit m i)
unfolding clear_bit
bit-clear_bit m zero zero = ground arith
bit-clear_bit m zero (suc i) =
    let e : m / 2 * 2 / 2 ≡ m / 2 = omega arith in rw (e, beq_ne (suc i) 0 (λ h. ground arith)) refl
bit-clear_bit m (suc k) zero = ground arith
bit-clear_bit m (suc k) (suc i) =
    let e : (clear_bit (m / 2) k * 2 + m % 2) / 2 ≡ clear_bit (m / 2) k = omega arith in
    rw (e, bit-clear_bit (m / 2) k i) (ground arith)

bit_byte : (m i : ℕ) → i < 8 → bit (m % 256) i ≡ bit m i
bit_byte m zero h = omega arith
bit_byte m (suc zero) h = omega arith
bit_byte m (suc (suc zero)) h = omega arith
bit_byte m (suc (suc (suc zero))) h = omega arith
bit_byte m (suc (suc (suc (suc zero)))) h = omega arith
bit_byte m (suc (suc (suc (suc (suc zero))))) h = omega arith
bit_byte m (suc (suc (suc (suc (suc (suc zero)))))) h = omega arith
bit_byte m (suc (suc (suc (suc (suc (suc (suc zero))))))) h = omega arith
bit_byte m (suc (suc (suc (suc (suc (suc (suc (suc i)))))))) h = absurd (omega arith)

bit_high : (m i : ℕ) → bit (m / 256) i ≡ bit m (suc (suc (suc (suc (suc (suc (suc (suc i))))))))
bit_high m i = ap (λ n. bit n i) (omega arith)

-- After `pic_setmask` the controllers mask the lines of the mask.
pic_setmask-masked :
    (mask irq : ℕ) (s : Pic) → irq < 16 → masked (pic_setmask mask s).ports irq ≡ bit mask irq
unfolding pic_setmask
pic_setmask-masked mask irq s h = elim (Bool-cases (ltb irq 8)) [
  | inl e ↦ rw (e, last_written-append, last_written-append) (bit_byte mask irq (ground arith))
  | inr e ↦
      let at_high : suc (suc (suc (suc (suc (suc (suc (suc (irq - 8)))))))) ≡ irq = ground arith in
      rw (e, last_written-append)
        (bit_byte (mask / 256) (irq - 8) (ground arith)
          ∙ bit_high mask (irq - 8)
          ∙ ap (bit mask) at_high)
]

pic_setmask_mask :
    (mask : ℕ) (s : Pic) (irq : ℕ) → bit (pic_setmask mask s).irq_mask irq ≡ bit mask irq
unfolding pic_setmask
pic_setmask_mask mask s irq = refl

-- After `pic_enable` the two controllers let that line through, and mask of the other 15 those whose bit is
-- set in `irq_mask`; the new `irq_mask` says the same of all of them.
pub pic_enable-masked :
    (line irq : ℕ) (s : Pic)
    → irq < 16
    → (masked (pic_enable line s).ports irq ≡ (if irq == line then 0 else bit s.irq_mask irq))
      × (bit (pic_enable line s).irq_mask irq ≡ (if irq == line then 0 else bit s.irq_mask irq))
unfolding pic_enable
pic_enable-masked line irq s h = (
  pic_setmask-masked (clear_bit s.irq_mask line) irq s h ∙ bit-clear_bit s.irq_mask line irq,
  pic_setmask_mask (clear_bit s.irq_mask line) s irq ∙ bit-clear_bit s.irq_mask line irq,
)
