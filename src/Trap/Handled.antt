-- ===== src/Trap/Handled.antt =====
-- What the shell does at a key, in kern/trap/trap.c.
use zonix.Prelude.{ℕ, ◌≡◌, refl, sym, ap, ◌∙◌, Option, none, some, some-injective, List, [], ◌∷◌}
use zonix.Cons.Shell.{Event, putc, unknown, prompt}
use zonix.Trap.{Kernel, perform, perform_event, and_then}

module _ {S : Type 0} (func : ℕ → Kernel S → Option (Kernel S)) where
  -- Every command returns, and leaves the line of the shell and the record of its events.
  abbrev pub CommandsReturn : Type 0
  CommandsReturn =
      (i : ℕ) (k : Kernel S)
      → (t : Kernel S) × (func i k ≡ some t) × (t.shell ≡ k.shell) × (t.events ≡ k.events)

  -- No command writes to the interrupt controllers.
  abbrev pub CommandsLeavePic : Type 0
  CommandsLeavePic = (i : ℕ) (k t : Kernel S) → func i k ≡ some t → t.pic ≡ k.pic

  perform_event-returns :
      CommandsReturn
      → (e : Event) (k : Kernel S)
      → (t : Kernel S) × (perform_event func e k ≡ some t)
        × (t.shell ≡ k.shell)
        × (t.events ≡ k.events)
  perform_event-returns back (putc c) k = (_, refl, refl, refl)
  perform_event-returns back (Event.func i) k = back i k
  perform_event-returns back (unknown cmd) k = (_, refl, refl, refl)
  perform_event-returns back prompt k = (_, refl, refl, refl)

  pub perform-returns :
      CommandsReturn
      → (es : List Event) (k : Kernel S)
      → (t : Kernel S) × (perform func es k ≡ some t) × (t.shell ≡ k.shell) × (t.events ≡ k.events)
  unfolding perform
  perform-returns back [] k = (k, refl, refl, refl)
  perform-returns back (e ∷ es) k =
      let (m, first, shell, events) = perform_event-returns back e k in
      let (t, rest, shell', events') = perform-returns back es m in
      (t, rw first rest, shell' ∙ shell, events' ∙ events)

  perform_event-pic :
      CommandsLeavePic
      → (e : Event) (k t : Kernel S) → perform_event func e k ≡ some t
      → t.pic ≡ k.pic
  perform_event-pic leave (putc c) k t h = ap (λ x. x.pic) (sym (some-injective _ _ h))
  perform_event-pic leave (Event.func i) k t h = leave i k t h
  perform_event-pic leave (unknown cmd) k t h = ap (λ x. x.pic) (sym (some-injective _ _ h))
  perform_event-pic leave prompt k t h = ap (λ x. x.pic) (sym (some-injective _ _ h))

  and_then-cases :
      (o : Option (Kernel S)) (f : Kernel S → Option (Kernel S)) (t : Kernel S)
      → and_then o f ≡ some t
      → (m : Kernel S) × (o ≡ some m) × (f m ≡ some t)
  and_then-cases none f t h = cc h
  and_then-cases (some m) f t h = (m, refl, h)

  pub perform-pic :
      CommandsLeavePic
      → (es : List Event) (k t : Kernel S) → perform func es k ≡ some t
      → t.pic ≡ k.pic
  unfolding perform
  perform-pic leave [] k t h = ap (λ x. x.pic) (sym (some-injective _ _ h))
  perform-pic leave (e ∷ es) k t h =
      let (m, first, rest) = and_then-cases (perform_event func e k) (perform func es) t h in
      perform-pic leave es m t rest ∙ perform_event-pic leave e k m first
