-- ===== src/Trap/Ack.antt =====
-- What a trap of kern/trap/trap.c does beside its handler: the ends of interrupt.
use zonix.Prelude.{
  ltb, leb, ◌==◌, if◌then◌else◌, Bool-cases, ℕ, ◌+◌, ◌-◌, ◌≡◌, refl, sym, ap, ◌∙◌, inl, inr, Bool,
  false, ◌&&◌, Option, none, some, some-injective, List, [], ◌∷◌, ◌++◌, arith,
}
use zonix.Drivers.Pic.{Pic, pic_send_eoi, pic1_cmd, pic2_cmd, pic1_imr, pic2_imr}
use zonix.Drivers.Pic.Mask.{masked, last_written-append}
use zonix.Mm.Swap.{SwapManager}
use zonix.Mm.SwapSpace.{SwapSpace, vmm_pg_fault}
use zonix.Trap.Handled.{CommandsLeavePic, perform-pic}
use zonix.Trap.{
  print_trapframe, print_pgfault, Kernel, Inputs, TrapFrame, trap, dispatch, acknowledge, irq_timer,
  irq_kbd, pg_fault, finish, after_fault, handle_char, kdb_getc,
}

-- How often the byte `v` went to `port`.
abbrev pub sent : ℕ → ℕ → List (ℕ × ℕ) → ℕ
sent port v [] = 0
sent port v (w ∷ ws) = (if (w.0 == port) && (w.1 == v) then 1 else 0) + sent port v ws

sent-append :
    (port v : ℕ) (ws : List (ℕ × ℕ)) (w : ℕ × ℕ)
    → sent port v (ws ++ w ∷ []) ≡ sent port v ws + (if (w.0 == port) && (w.1 == v) then 1 else 0)
sent-append port v [] w = ground arith
sent-append port v (u ∷ ws) w = omega (arith, sent-append port v ws w)

-- The masks that the two controllers were last given, and the one that the kernel keeps, are the same.
abbrev pub SameMask : Pic → Pic → Type 0
SameMask s t = (t.irq_mask ≡ s.irq_mask) × ((irq : ℕ) → masked t.ports irq ≡ masked s.ports irq)

-- A write to another port masks nothing.
masked-append :
    (ws : List (ℕ × ℕ)) (w : ℕ × ℕ) (line : ℕ)
    → (w.0 == pic1_imr) ≡ false
    → (w.0 == pic2_imr) ≡ false
    → masked (ws ++ w ∷ []) line ≡ masked ws line
masked-append ws w line a b =
    rw (last_written-append pic1_imr 0xFF ws w, last_written-append pic2_imr 0xFF ws w, a, b) refl

-- The ends of interrupt that the two controllers get for the line.
pic_send_eoi-sent :
    (irq : ℕ) (s : Pic)
    → (sent pic1_cmd 0x20 (pic_send_eoi irq s).ports ≡ sent pic1_cmd 0x20 s.ports + 1)
      × (sent pic2_cmd 0x20 (pic_send_eoi irq s).ports
          ≡ sent pic2_cmd 0x20 s.ports + (if leb 8 irq then 1 else 0))
      × SameMask s (pic_send_eoi irq s)
unfolding pic_send_eoi
pic_send_eoi-sent irq s = elim (Bool-cases (leb 8 irq)) [
  | inl e ↦ (
    rw (e, sent-append, sent-append) (ground arith),
    rw (e, sent-append, sent-append) (ground arith),
    (
      rw e refl,
      λ line. rw e (
          masked-append (s.ports ++ (pic2_cmd, 0x20) ∷ []) (pic1_cmd, 0x20) line refl refl
          ∙ masked-append s.ports (pic2_cmd, 0x20) line refl refl),
    ),
  )
  | inr e ↦ (
    rw (e, sent-append) (ground arith),
    rw (e, sent-append) (ground arith),
    (rw e refl, λ line. rw e (masked-append s.ports (pic1_cmd, 0x20) line refl refl)),
  )
]

-- A number of an interrupt line, and of a line of the second controller.
abbrev pub is_irq : ℕ → Bool
is_irq n = leb 32 n && ltb n 48

abbrev pub is_slave_irq : ℕ → Bool
is_slave_irq n = leb 40 n && ltb n 48

acknowledge-sent :
    {S : Type 0} (n : ℕ) (k : Kernel S)
    → (sent pic1_cmd 0x20 (acknowledge n k).pic.ports
        ≡ sent pic1_cmd 0x20 k.pic.ports + (if is_irq n then 1 else 0))
      × (sent pic2_cmd 0x20 (acknowledge n k).pic.ports
          ≡ sent pic2_cmd 0x20 k.pic.ports + (if is_slave_irq n then 1 else 0))
      × SameMask k.pic (acknowledge n k).pic
unfolding acknowledge
acknowledge-sent n k = elim (Bool-cases (leb 32 n && ltb n 48)) [
  | inr e ↦
      let f : is_slave_irq n ≡ false = ground arith in
      rw (e, f) (ground arith, ground arith, (refl, λ line. refl))
  | inl e ↦
      let (first, second, mask) = pic_send_eoi-sent (n - 32) k.pic in
      let f : leb 8 (n - 32) ≡ is_slave_irq n = ground arith in
      rw e (first, second ∙ rw f refl, mask)
]

handle_char-pic :
    {S : Type 0} (func : ℕ → Kernel S → Option (Kernel S)) (c : Option ℕ) (k t : Kernel S)
    → CommandsLeavePic func
    → handle_char func c k ≡ some t
    → t.pic ≡ k.pic
handle_char-pic func none k t leave h = ap (λ x. x.pic) (sym (some-injective _ _ h))
handle_char-pic func (some c) k t leave h = elim (Bool-cases (ltb 0 c && ltb c 128)) [
  | inl e ↦ perform-pic func leave _ _ t (rw e at h)
  | inr e ↦ ap (λ x. x.pic) (sym (some-injective _ _ (rw e at h)))
]

module _ {S : Type 0} (m : SwapManager S) (blk_read : ℕ → Bool) (fuel pgdir : ℕ)
    (func : ℕ → Kernel S → Option (Kernel S)) where
  finish-cases :
      (n : ℕ) (o : Option (Kernel S)) (t : Kernel S)
      → finish m blk_read fuel pgdir func n o ≡ some t
      → (k : Kernel S) × (o ≡ some k) × (acknowledge n k ≡ t)
  finish-cases n none t h = cc h
  finish-cases n (some k) t h = (k, refl, some-injective _ _ h)

  after_fault-pic :
      (k t : Kernel S) (o : Option (SwapSpace S))
      → after_fault m blk_read fuel pgdir func k o ≡ some t
      → t.pic ≡ k.pic
  after_fault-pic k t none h = cc h
  after_fault-pic k t (some space) h = ap (λ x. x.pic) (sym (some-injective _ _ h))

  -- No handler touches the controllers.
  dispatch-pic :
      (i : Inputs) (tf : ℕ) (frame : TrapFrame) (k t : Kernel S)
      → CommandsLeavePic func
      → dispatch m blk_read fuel pgdir func i tf frame k ≡ some t
      → t.pic ≡ k.pic
  unfolding dispatch irq_timer irq_kbd pg_fault
  dispatch-pic i tf frame k t leave h = elim (Bool-cases (frame.tf_trapno == 14)) [
    | inl e ↦
        let told : Kernel S = record k {
          printed = k.printed ++ print_trapframe tf frame ++ print_pgfault i.cr2 frame;
        } in
        after_fault-pic told t (vmm_pg_fault m blk_read fuel pgdir i.cr2 k.space) (rw e at h)
    | inr e ↦ elim (Bool-cases (frame.tf_trapno == 32)) [
      | inl f ↦ ap (λ x. x.pic) (sym (some-injective _ _ (rw (e, f) at h)))
      | inr f ↦ elim (Bool-cases (frame.tf_trapno == 33)) [
        | inl g ↦
            handle_char-pic func (kdb_getc i.kbd_status i.kbd_data) k t leave (rw (e, f, g) at h)
        | inr g ↦ ap (λ x. x.pic) (sym (some-injective _ _ (rw (e, f, g) at h)))
      ]
    ]
  ]

  -- Let no command of the shell write to the interrupt controllers. Whenever a trap returns, the first controller has got one more end of interrupt if the number is that of
  -- one of the 16 lines, the second if it is one of its 8, none otherwise. The mask that the kernel keeps and
  -- the lines that the controllers mask, by the bytes last written to their mask registers, are the same.
  pub trap-sent :
      (i : Inputs) (tf : ℕ) (frame : TrapFrame) (k t : Kernel S)
      → CommandsLeavePic func
      → trap m blk_read fuel pgdir func i tf frame k ≡ some t
      → (sent pic1_cmd 0x20 t.pic.ports
          ≡ sent pic1_cmd 0x20 k.pic.ports + (if is_irq frame.tf_trapno then 1 else 0))
        × (sent pic2_cmd 0x20 t.pic.ports
            ≡ sent pic2_cmd 0x20 k.pic.ports + (if is_slave_irq frame.tf_trapno then 1 else 0))
        × SameMask k.pic t.pic
  unfolding trap
  trap-sent i tf frame k t leave h =
      let (u, handled, e) =
        finish-cases frame.tf_trapno (dispatch m blk_read fuel pgdir func i tf frame k) t h in
      let same = dispatch-pic i tf frame k u leave handled in
      let (first, second, mask) = acknowledge-sent frame.tf_trapno u in
      rw (sym e, sym same) (first, second, mask)
