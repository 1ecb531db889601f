-- ===== src/Trap/Returns.antt =====
-- The traps of kern/trap/trap.c other than page faults and keys.
use zonix.Prelude.{
  ◌==◌, if◌then◌else◌, beq_ne, Bool-cases, ℕ, ◌+◌, ◌%◌, ◌^◌, ◌≡◌, refl, ◌∙◌, ◌≢◌, inl, inr, Bool,
  Option, some, arith,
}
use zonix.Mm.Swap.{SwapManager}
use zonix.Trap.{Kernel, Inputs, TrapFrame, trap, dispatch, acknowledge, irq_timer}

-- All of `k` but the controllers, and the given ticks.
abbrev pub Apart : {S : Type 0} → Kernel S → Kernel S → ℕ → Type 0
Apart k t ticks =
    (t.space ≡ k.space)
    × (t.printed ≡ k.printed)
    × (t.shell ≡ k.shell)
    × (t.events ≡ k.events)
    × (t.ticks ≡ ticks)

acknowledge-Apart : {S : Type 0} (n : ℕ) (k : Kernel S) → Apart k (acknowledge n k) k.ticks
unfolding acknowledge
acknowledge-Apart n k = (ground arith, ground arith, ground arith, ground arith, ground arith)

module _ {S : Type 0} (m : SwapManager S) (blk_read : ℕ → Bool) (fuel pgdir : ℕ)
    (func : ℕ → Kernel S → Option (Kernel S)) where
  dispatch-Apart :
      (i : Inputs) (tf : ℕ) (frame : TrapFrame) (k : Kernel S)
      → frame.tf_trapno ≢ 14
      → frame.tf_trapno ≢ 33
      → (t : Kernel S) × (dispatch m blk_read fuel pgdir func i tf frame k ≡ some t)
        × Apart k t (if frame.tf_trapno == 32 then (k.ticks + 1) % 2 ^ 64 else k.ticks)
  unfolding dispatch irq_timer
  dispatch-Apart i tf frame k fault key =
      let e = beq_ne frame.tf_trapno 14 fault in
      let g = beq_ne frame.tf_trapno 33 key in
      elim (Bool-cases (frame.tf_trapno == 32)) [
        | inl f ↦ (irq_timer k, rw (e, f) refl, rw f (refl, refl, refl, refl, refl))
        | inr f ↦ (k, rw (e, f, g) refl, rw f (refl, refl, refl, refl, refl))
      ]

  pub trap-returns :
      (i : Inputs) (tf : ℕ) (frame : TrapFrame) (k : Kernel S)
      → frame.tf_trapno ≢ 14
      → frame.tf_trapno ≢ 33
      → (t : Kernel S) × (trap m blk_read fuel pgdir func i tf frame k ≡ some t)
        × Apart k t (if frame.tf_trapno == 32 then (k.ticks + 1) % 2 ^ 64 else k.ticks)
  unfolding trap
  trap-returns i tf frame k fault key =
      let (u, done, (space, printed, shell, events, ticks)) =
        dispatch-Apart i tf frame k fault key in
      let (space', printed', shell', events', ticks') = acknowledge-Apart frame.tf_trapno u in
      (
        acknowledge frame.tf_trapno u,
        rw done refl,
        (space' ∙ space, printed' ∙ printed, shell' ∙ shell, events' ∙ events, ticks' ∙ ticks),
      )
