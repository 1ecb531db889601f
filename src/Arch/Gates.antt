-- ===== src/Arch/Gates.antt =====
-- kern/arch/x86/idt.c with include/arch/x86/segments.h: the table of interrupt gates. The addresses of the
-- entry stubs, `__vectors`, are the parameter `vectors`. A bit field keeps the low bits of what is stored.
use zonix.Prelude.{
  ◌==◌, if◌then◌else◌, Bool-cases, ℕ, zero, suc, ◌+◌, ◌*◌, ◌/◌, ◌%◌, ◌^◌, ◌≤◌, ◌<◌, ◌≡◌, refl, sym,
  subst, inl, inr, Bool, true, arith,
}

pub record GateDesc : Type 0 where
  pub gd_off_15_0 : ℕ
  pub gd_ss : ℕ
  pub gd_args : ℕ
  pub gd_rsv1 : ℕ
  pub gd_type : ℕ
  pub gd_s : ℕ
  pub gd_dpl : ℕ
  pub gd_p : ℕ
  pub gd_off_31_16 : ℕ

abbrev pub sts_tg32 : ℕ
sts_tg32 = 0xF

abbrev pub seg_ktext : ℕ
seg_ktext = 1

abbrev pub gd_ktext : ℕ
gd_ktext = seg_ktext * 8

abbrev pub dpl_kernel : ℕ
dpl_kernel = 0

abbrev pub dpl_user : ℕ
dpl_user = 3

abbrev pub t_syscall : ℕ
t_syscall = 0x80

-- `SET_GATE`; all the fields are stored.
unfoldable pub set_gate : ℕ → ℕ → ℕ → ℕ → GateDesc
set_gate type sel dpl addr = record {
  gd_off_15_0 = addr % 2 ^ 32 % 2 ^ 16;
  gd_ss = sel % 2 ^ 16;
  gd_args = 0;
  gd_rsv1 = 0;
  gd_type = type % 2 ^ 4;
  gd_s = 0;
  gd_dpl = dpl % 2 ^ 2;
  gd_p = 1;
  gd_off_31_16 = addr % 2 ^ 32 / 2 ^ 16 % 2 ^ 16;
}

abbrev pub set_trap_gate : ℕ → GateDesc
set_trap_gate addr = set_gate sts_tg32 gd_ktext dpl_kernel addr

abbrev pub set_sys_gate : ℕ → GateDesc
set_sys_gate addr = set_gate sts_tg32 gd_ktext dpl_user addr

abbrev pub Idt : Type 0
Idt = ℕ → GateDesc

abbrev pub store_gate : ℕ → GateDesc → Idt → Idt
store_gate i g idt j = if j == i then g else idt j

-- The loop of `idt_init` from gate `i` on, with `n` to go.
unfoldable pub set_trap_gates : (ℕ → ℕ) → ℕ → ℕ → Idt → Idt
set_trap_gates vectors i zero idt = idt
set_trap_gates vectors i (suc n) idt =
    set_trap_gates vectors (i + 1) n (store_gate i (set_trap_gate (vectors i)) idt)

unfoldable pub idt_init : (ℕ → ℕ) → Idt → Idt
idt_init vectors idt =
    store_gate t_syscall (set_sys_gate (vectors t_syscall)) (set_trap_gates vectors 0 256 idt)

-- The two words of a gate in memory: the bit fields from the lowest bit on.
abbrev pub low_word : GateDesc → ℕ
low_word g = g.gd_off_15_0 + 2 ^ 16 * g.gd_ss

abbrev pub high_word : GateDesc → ℕ
high_word g =
    g.gd_args
    + 2 ^ 5 * g.gd_rsv1
    + 2 ^ 8 * g.gd_type
    + 2 ^ 12 * g.gd_s
    + 2 ^ 13 * g.gd_dpl
    + 2 ^ 15 * g.gd_p
    + 2 ^ 16 * g.gd_off_31_16

-- What the processor reads in the two words of a gate.
pub record Entry : Type 0 where
  pub offset : ℕ
  pub selector : ℕ
  pub kind : ℕ
  pub privilege : ℕ
  pub present : Bool

abbrev pub read_gate : ℕ → ℕ → Entry
read_gate low high = record {
  offset = low % 2 ^ 16 + high / 2 ^ 16 * 2 ^ 16;
  selector = low / 2 ^ 16;
  kind = high / 2 ^ 8 % 2 ^ 5;
  privilege = high / 2 ^ 13 % 2 ^ 2;
  present = high / 2 ^ 15 % 2 == 1;
}

abbrev pub entry_of : GateDesc → Entry
entry_of g = read_gate (low_word g) (high_word g)

-- A 32-bit trap gate into the text of the kernel.
abbrev pub trap_entry : ℕ → ℕ → Entry
trap_entry addr privilege = record {
  offset = addr;
  selector = 8;
  kind = 15;
  privilege = privilege;
  present = true;
}

set_trap_gate-entry : (addr : ℕ) → addr < 2 ^ 32 → entry_of (set_trap_gate addr) ≡ trap_entry addr 0
unfolding set_gate
set_trap_gate-entry addr h = ground arith

set_sys_gate-entry : (addr : ℕ) → addr < 2 ^ 32 → entry_of (set_sys_gate addr) ≡ trap_entry addr 3
unfolding set_gate
set_sys_gate-entry addr h = ground arith

set_trap_gates_before :
    (vectors : ℕ → ℕ) (i n j : ℕ) (idt : Idt) → j < i → set_trap_gates vectors i n idt j ≡ idt j
unfolding set_trap_gates
set_trap_gates_before vectors i zero j idt h = refl
set_trap_gates_before vectors i (suc n) j idt h = ground (
  arith,
  set_trap_gates_before vectors (i + 1) n j (store_gate i (set_trap_gate (vectors i)) idt),
)

set_trap_gates-at :
    (vectors : ℕ → ℕ) (i n j : ℕ) (idt : Idt)
    → i ≤ j
    → j < i + n
    → set_trap_gates vectors i n idt j ≡ set_trap_gate (vectors j)
unfolding set_trap_gates
set_trap_gates-at vectors i zero j idt a b = absurd (omega arith)
set_trap_gates-at vectors i (suc n) j idt a b = elim (Bool-cases (j == i)) [
  | inl e ↦ ground (
    arith,
    set_trap_gates_before vectors (i + 1) n j (store_gate i (set_trap_gate (vectors i)) idt),
  )
  | inr e ↦
      set_trap_gates-at vectors (i + 1) n j (store_gate i (set_trap_gate (vectors i)) idt)
        (ground arith) (omega arith)
]

-- After `idt_init`, whatever the table held before, the processor reads in each of the 256 gates, from its
-- two words, a present 32-bit trap gate to the entry stub of that number in the kernel's code segment; only
-- the gate of the system call can be used by a program of privilege 3.
pub idt_init-entries :
    (vectors : ℕ → ℕ) (idt : Idt) (n : ℕ)
    → n < 256
    → vectors n < 2 ^ 32
    → entry_of (idt_init vectors idt n) ≡ trap_entry (vectors n) (if n == t_syscall then 3 else 0)
unfolding idt_init
idt_init-entries vectors idt n b h = elim (Bool-cases (n == t_syscall)) [
  | inl e ↦
      let same : t_syscall ≡ n = ground arith in
      rw e (
        subst (λ k. entry_of (set_sys_gate (vectors t_syscall)) ≡ trap_entry (vectors k) 3) same
          (set_sys_gate-entry (vectors t_syscall) (subst (λ k. vectors k < 2 ^ 32) (sym same) h)))
  | inr e ↦
      rw (e, set_trap_gates-at vectors 0 256 n idt (omega arith) (omega arith))
        (set_trap_gate-entry (vectors n) h)
]
