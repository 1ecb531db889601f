-- ===== src/Boot/Segment.antt =====
-- What `readseg` of boot/bootload.c puts into memory.
use zonix.Prelude.{
  ltb, leb, Bool-cases, ℕ, zero, suc, ◌+◌, ◌-◌, ◌*◌, ◌/◌, ◌%◌, ◌^◌, ◌≤◌, ◌<◌, ◌≡◌, refl, ap, ◌∙◌,
  ◌⊎◌, inl, inr, true, false, ◌&&◌, some, List, arith,
}
use zonix.Boot.{Loader, read_command, waitdisk, readsect, readseg, readseg_loop, store_sector}

module _ (status : ℕ → ℕ) (transfer : List (ℕ × ℕ) → ℕ → ℕ) where
  -- From every read on, the disk becomes ready within `fuel` reads of its status.
  abbrev pub Answers : ℕ → Type 0
  Answers fuel = (n : ℕ) → (k : ℕ) × (waitdisk status transfer fuel n ≡ some k)

  -- The controller gives the bytes of the sector that the read_command names, by its 28 bits.
  abbrev pub Delivers : (ℕ → ℕ) → Type 0
  Delivers disk =
      (secno i : ℕ)
      → secno < 2 ^ 28
      → i < 512
      → transfer (read_command secno) i ≡ disk (secno * 512 + i)

  -- The bytes from `a` up to `b` are those of the disk, `shift` behind, and the others those of `s`.
  abbrev pub Loaded : (ℕ → ℕ) → ℕ → ℕ → ℕ → ℕ → Loader → Loader → Type 0
  Loaded disk a b from to s t =
      (x : ℕ)
      → (a ≤ x → x < b → t.mem x ≡ disk (from + (x - a))) × ((x < a) ⊎ (to ≤ x) → t.mem x ≡ s.mem x)

  readsect-Answers :
      (fuel dst secno : ℕ) (s : Loader)
      → Answers fuel
      → (n : ℕ) × (readsect status transfer fuel dst secno s
          ≡ some
              (record { mem = store_sector dst (transfer (read_command secno)) s.mem; polls = n }))
  unfolding readsect
  readsect-Answers fuel dst secno s ans =
      let (n, first) = ans s.polls in let (k, second) = ans n in (k, rw (first, second) refl)

  -- One turn: the bytes of the sector.
  store_sector-at :
      (va secno x : ℕ) (disk mem : ℕ → ℕ)
      → Delivers disk
      → secno < 2 ^ 28
      → va ≤ x
      → x < va + 512
      → store_sector va (transfer (read_command secno)) mem x ≡ disk (secno * 512 + (x - va))
  store_sector-at va secno x disk mem del small lo hi =
      let e : (leb va x && ltb x (va + 512)) ≡ true = ground arith in
      rw e (del secno (x - va) small (omega arith))

  store_sector-other :
      (va secno x : ℕ) (mem : ℕ → ℕ)
      → (x < va) ⊎ (va + 512 ≤ x)
      → store_sector va (transfer (read_command secno)) mem x ≡ mem x
  store_sector-other va secno x mem out =
      let e : (leb va x && ltb x (va + 512)) ≡ false = ground arith in rw e refl

  -- A turn and the bytes that the later turns load.
  turn-Loaded :
      (va end_va secno n : ℕ) (disk : ℕ → ℕ) (s t : Loader)
      → Delivers disk
      → secno < 2 ^ 28
      → va < end_va
      → Loaded disk
          (va + 512)
          end_va
          ((secno + 1) * 512)
          (end_va + 511)
          (record { mem = store_sector va (transfer (read_command secno)) s.mem; polls = n })
          t
      → Loaded disk va end_va (secno * 512) (end_va + 511) s t
  turn-Loaded va end_va secno n disk s t del small less loaded x = (
    λ lo hi. elim (Bool-cases (ltb x (va + 512))) [
      | inl e ↦
          (loaded x).1 (inl (ground arith))
          ∙ store_sector-at va secno x disk s.mem del small lo (ground arith)
      | inr e ↦ (loaded x).0 (ground arith) hi ∙ ap disk (ground arith)
    ],
    λ out. (loaded x).1 (omega arith) ∙ store_sector-other va secno x s.mem (omega arith),
  )

  readseg_turn :
      (turns fuel va end_va secno : ℕ) (s next : Loader)
      → ltb va end_va ≡ true
      → readsect status transfer fuel va secno s ≡ some next
      → (va + 512) % 2 ^ 32 ≡ va + 512
      → readseg_loop status transfer (suc turns) fuel va end_va secno s
        ≡ readseg_loop status transfer turns fuel (va + 512) end_va (secno + 1) next
  unfolding readseg_loop
  readseg_turn turns fuel va end_va secno s next e done on = rw (e, done, on) refl

  readseg_loop-Loaded :
      (turns fuel va end_va secno : ℕ) (disk : ℕ → ℕ) (s : Loader)
      → Answers fuel
      → Delivers disk
      → end_va + 512 ≤ 2 ^ 32
      → end_va ≤ va + turns * 512
      → secno + turns ≤ 2 ^ 28
      → (t : Loader) × (readseg_loop status transfer turns fuel va end_va secno s ≡ some t)
        × Loaded disk va end_va (secno * 512) (end_va + 511) s t
  unfolding readseg_loop
  readseg_loop-Loaded zero fuel va end_va secno disk s ans del room enough small =
      let e : ltb va end_va ≡ false = ground arith in
      (s, rw e refl, λ x. ((λ lo hi. absurd (omega arith)), λ out. refl))
  readseg_loop-Loaded (suc turns) fuel va end_va secno disk s ans del room enough small =
      elim (Bool-cases (ltb va end_va)) [
        | inr e ↦ (s, rw e refl, λ x. ((λ lo hi. absurd (ground arith)), λ out. refl))
        | inl e ↦
            let less : va < end_va = ground arith in
            let (n, done) = readsect-Answers fuel va secno s ans in
            let next : Loader = record {
              mem = store_sector va (transfer (read_command secno)) s.mem;
              polls = n;
            } in
            let on : (va + 512) % 2 ^ 32 ≡ va + 512 = omega arith in
            let (t, rest, loaded) =
              readseg_loop-Loaded turns fuel (va + 512) end_va (secno + 1) disk next ans del room
                (omega arith) (omega arith) in
            (
              t,
              readseg_turn turns fuel va end_va secno s next e done on ∙ rest,
              turn-Loaded va end_va secno n disk s t del (omega arith) less loaded,
            )
      ]

  readseg_starts :
      (turns fuel va count offset : ℕ) (s : Loader)
      → (va + count) % 2 ^ 32 ≡ va + count
      → (va + 2 ^ 32 - offset % 512) % 2 ^ 32 ≡ va - offset % 512
      → readseg status transfer turns fuel va count offset s
        ≡ readseg_loop status transfer turns fuel
            (va - offset % 512)
            (va + count)
            (offset / 512 + 1)
            s
  unfolding readseg
  readseg_starts turns fuel va count offset s end_va start = rw (end_va, start) refl

  pub readseg-bytes :
      (turns fuel va count offset : ℕ) (disk : ℕ → ℕ) (s : Loader)
      → Answers fuel
      → Delivers disk
      → offset % 512 ≤ va
      → va + count + 512 ≤ 2 ^ 32
      → offset % 512 + count ≤ turns * 512
      → offset / 512 + 1 + turns ≤ 2 ^ 28
      → (t : Loader) × (readseg status transfer turns fuel va count offset s ≡ some t)
        × ((i : ℕ) → i < count → t.mem (va + i) ≡ disk (512 + offset + i))
        × ((x : ℕ) → (x < va - offset % 512) ⊎ (va + count + 511 ≤ x) → t.mem x ≡ s.mem x)
  readseg-bytes turns fuel va count offset disk s ans del lo hi enough small =
      let end_va : (va + count) % 2 ^ 32 ≡ va + count = omega arith in
      let start : (va + 2 ^ 32 - offset % 512) % 2 ^ 32 ≡ va - offset % 512 = omega arith in
      let (t, done, loaded) =
        readseg_loop-Loaded turns fuel (va - offset % 512) (va + count) (offset / 512 + 1) disk s
          ans del hi (omega arith) small in
      (
        t,
        readseg_starts turns fuel va count offset s end_va start ∙ done,
        (λ i less. (loaded (va + i)).0 (omega arith) (omega arith) ∙ ap disk (omega arith)),
        λ x out. (loaded x).1 out,
      )
