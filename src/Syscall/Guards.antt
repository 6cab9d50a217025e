-- ===== src/Syscall/Guards.antt =====
-- The checks of pointers in the system calls of kernel/syscall/syscall.c.
use orion_final.Base.{
  ℕ, zero, suc, ◌≡◌, ◌≢◌, refl, sym, ap, ◌∙◌, inl, inr, Bool, true, false, not, ◌||◌, ◌&&◌, ◌==◌,
  Bool-cases, ne→eqb, none, some, Option, List, [], ◌∷◌, get_elem?, if◌then◌else◌, if_true,
  if_false,
}
use orion_final.Base.Words.{minus_one}
use orion_final.Kernel.{Kernel}
use orion_final.Syscall.{
  Regs, Call, returns, Services, sys_write, sys_read, sys_open, sys_pipe, sys_execve, sys_wait,
  syscall_table, finish, syscall_dispatch, syscall_validate_ptr,
}

-- The range of memory that a call takes from its caller: its address and its length.
abbrev pub Argument : Type 0
Argument = Regs → Option (ℕ × ℕ)

abbrev no_range : Argument
no_range r = none

abbrev pub buffer : Argument
buffer r = some (r.ecx, r.edx)

-- the first byte of a path
abbrev path : Argument
path r = some (r.ebx, 1)

abbrev pipe_ends : Argument
pipe_ends r = some (r.ebx, 8)

abbrev exit_status : Argument
exit_status r = if r.ecx == 0 then none else some (r.ecx, 4)

-- by the number of the call, as syscall.h lists them
abbrev pub arguments : List Argument
arguments =
    no_range ∷ no_range ∷ no_range ∷ no_range ∷ no_range ∷ no_range ∷ buffer ∷ buffer ∷ path
    ∷ no_range ∷ pipe_ends ∷ no_range ∷ path ∷ exit_status ∷ []

module _ {R : Type 0} (env : Services R) (r : Regs) (k : Kernel R) (p ptr len : ℕ)
    (current : k.current_proc ≡ some p) (user : (k.procs p).page_directory ≢ 0)
    (unmapped : env.range_mapped k.resources (k.procs p).page_directory ptr len ≡ false) where
  validate-unmapped : syscall_validate_ptr env k ptr len ≡ false
  unfolding syscall_validate_ptr
  validate-unmapped = elim (Bool-cases (ptr == 0 || len == 0)) [
    | inl e ↦ if_true _ _ e
    | inr e ↦
        if_false _ _ e
        ∙ ap
            (λ o. elim o as (λ _. Bool) [
              | none ↦ false
              | some q ↦
                  if (k.procs q).page_directory == 0
                  then true
                  else env.range_mapped k.resources (k.procs q).page_directory ptr len
            ])
            current
        ∙ if_false _ _ (ne→eqb _ _ user)
        ∙ unmapped
  ]

  Refuses : (Regs → Kernel R → Call R) → Argument → Type 0
  Refuses handler a = a r ≡ some (ptr, len) → handler r k ≡ returns minus_one r k

  AllRefuse : List (Regs → Kernel R → Call R) → List Argument → Type 0
  unfolding Refuses
  AllRefuse [] as' = Unit
  AllRefuse (h ∷ hs) [] = Unit
  AllRefuse (h ∷ hs) (a ∷ as') = Refuses h a × AllRefuse hs as'

  given :
      (a n : ℕ)
      → ◌≡◌ {A = Option (ℕ × ℕ)} (some (a, n)) (some (ptr, len))
      → not (syscall_validate_ptr env k a n) ≡ true
  given a n e =
      let first : a ≡ ptr = cc in
      let second : n ≡ len = cc in
      ap (λ (x : ℕ). not (syscall_validate_ptr env k x n)) first
      ∙ ap (λ (x : ℕ). not (syscall_validate_ptr env k ptr x)) second
      ∙ ap not validate-unmapped

  unchecked :
      {c : Call R} → ◌≡◌ {A = Option (ℕ × ℕ)} none (some (ptr, len)) → c ≡ returns minus_one r k
  unchecked e = cc

  waits_refused : Refuses (sys_wait env) exit_status
  unfolding Refuses sys_wait
  waits_refused e = elim (Bool-cases (r.ecx == 0)) [
    | inl z ↦
        let nothing : ◌≡◌ {A = Option (ℕ × ℕ)} none (some (ptr, len)) = sym (if_true _ _ z) ∙ e in
        cc
    | inr z ↦
        let range = sym (if_false _ _ z) ∙ e in
        if_true _ _ (
          ap (λ (b : Bool). not b && not (syscall_validate_ptr env k r.ecx 4)) z
          ∙ given r.ecx 4 range)
  ]

  all_refuse : AllRefuse (syscall_table env) arguments
  unfolding AllRefuse Refuses syscall_table sys_write sys_read sys_open sys_pipe sys_execve
  all_refuse = (
    unchecked,
    (
      unchecked,
      (
        unchecked,
        (
          unchecked,
          (
            unchecked,
            (
              unchecked,
              (
                (λ e. if_true _ _ (given r.ecx r.edx e)),
                (
                  (λ e. if_true _ _ (given r.ecx r.edx e)),
                  (
                    (λ e. if_true _ _ (given r.ebx 1 e)),
                    (
                      unchecked,
                      (
                        (λ e. if_true _ _ (given r.ebx 8 e)),
                        (unchecked, ((λ e. if_true _ _ (given r.ebx 1 e)), (waits_refused, tt))),
                      ),
                    ),
                  ),
                ),
              ),
            ),
          ),
        ),
      ),
    ),
  )

  refuse_at :
      (hs : List (Regs → Kernel R → Call R)) (as' : List Argument) (n : ℕ) (a : Argument)
      → AllRefuse hs as'
      → get_elem? as' n ≡ some a
      → a r ≡ some (ptr, len)
      → elim (get_elem? hs n) as (λ _. Call R) [
        | none ↦ returns minus_one (record r { eax = minus_one }) k
        | some handler ↦ finish (handler r k)
      ]
        ≡ returns minus_one (record r { eax = minus_one }) k
  unfolding AllRefuse Refuses finish
  refuse_at [] as' n a h e f = refl
  refuse_at (g ∷ hs) [] n a h e f = cc
  refuse_at (g ∷ hs) (b ∷ as') zero a h e f =
      let same : b ≡ a = cc in ap finish (h.0 (ap (λ (x : Argument). x r) same ∙ f))
  refuse_at (g ∷ hs) (b ∷ as') (suc n) a h e f = refuse_at hs as' n a h.1 e f

  -- A system call of a process with an address space of its own, which takes a range of memory that is not
  -- mapped there, returns -1 and does nothing else: a read or a write its buffer, `sys_pipe` the place of the
  -- two descriptors, `sys_wait` that of the exit code, and `sys_open` and `sys_execve` the first byte of the path.
  pub syscall_dispatch-unmapped :
      (a : Argument)
      → get_elem? arguments r.eax ≡ some a
      → a r ≡ some (ptr, len)
      → syscall_dispatch env r k ≡ returns minus_one (record r { eax = minus_one }) k
  unfolding syscall_dispatch
  syscall_dispatch-unmapped a e f = refuse_at (syscall_table env) arguments r.eax a all_refuse e f
