-- ===== src/Syscall/Selectors.antt =====
-- The selectors that SYSCALL and SYSRET load, against those of the tasks.
use metal_to_app.Base.{
  ℕ, ◌+◌, ◌*◌, ◌/◌, ◌%◌, ◌^◌, ◌<◌, ◌≡◌, ◌==◌, if◌then◌else◌, true, false, arith,
}
use metal_to_app.Scheduler.Task.{Task, make_task}
use metal_to_app.Syscall.{
  Msrs, star_addr, lstar_addr, sfmask_addr, writemsr, readmsr, star_value, setup_syscall,
}

-- What the CPU takes from STAR: SYSCALL loads CS from bits 32 to 47 and SS from the selector behind
-- it; a 64-bit SYSRET loads CS two selectors and SS one selector behind bits 48 to 63, for ring 3.
pub record Selectors : Type 0 where
  pub cs : ℕ
  pub ss : ℕ

abbrev pub syscall_selectors : ℕ → Selectors
syscall_selectors star = record { cs = star / 2 ^ 32 % 2 ^ 16; ss = star / 2 ^ 32 % 2 ^ 16 + 8 }

abbrev pub sysret_selectors : ℕ → Selectors
sysret_selectors star = record { cs = star / 2 ^ 48 + 16 + 3; ss = star / 2 ^ 48 + 8 + 3 }

halves : (v : ℕ) → v < 2 ^ 64 → v % 2 ^ 32 + v / 2 ^ 32 % 2 ^ 32 * 2 ^ 32 ≡ v
halves v h = omega arith

star_fields :
    (old : ℕ)
    → (star_value old / 2 ^ 48 ≡ 24)
      × (star_value old / 2 ^ 32 % 2 ^ 16 ≡ 8)
      × (star_value old < 2 ^ 64)
unfolding star_value
star_fields old = omega arith

-- With registers and entry point below 2^64: after setup_syscall, SYSRET loads the selectors of
-- a user task and SYSCALL those of a kernel task, as make_task sets them; LSTAR holds the entry
-- point, the low half of SFMASK is 0 and its high half is as it was, and every other register is
-- as it was.
pub setup_syscall_lem :
    (msrs : Msrs) (entry kas stack rip arg space : ℕ) (t : Task)
    → entry < 2 ^ 64
    → ((r : ℕ) → msrs r < 2 ^ 64)
    → let after = setup_syscall entry msrs in
      let user = (make_task kas t stack rip arg space true).context in
      let kernel = (make_task kas t stack rip arg space false).context in
      (sysret_selectors (after star_addr) ≡ record { cs = user.cs; ss = user.ss })
      × (syscall_selectors (after star_addr) ≡ record { cs = kernel.cs; ss = kernel.ss })
      × (after lstar_addr ≡ entry)
      × (after sfmask_addr ≡ msrs sfmask_addr / 2 ^ 32 * 2 ^ 32)
      × ((r : ℕ)
          → after r ≡ (
              if r == star_addr
              then after r
              else if r == lstar_addr
              then after r
              else if r == sfmask_addr
              then after r
              else msrs r))
unfolding setup_syscall make_task writemsr readmsr
setup_syscall_lem msrs entry kas stack rip arg space t he hm =
    let star = star_value (readmsr star_addr msrs) in
    let f = star_fields (readmsr star_addr msrs) in
    let whole = halves star f.2 in
    let low = hm sfmask_addr in
    (
      rw whole (ground (arith, f)),
      rw whole (ground (arith, f)),
      halves entry he,
      omega (arith, low),
      λ r. ground arith,
    )
