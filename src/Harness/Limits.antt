-- ===== src/Harness/Limits.antt =====
-- The resource limits of the child: `_check_rlimit_feasibility`, `_make_rlimit_preexec` and
-- `_build_rlimit_enforcement` in .agent/scripts/harness/harness_run.py.
use go_agent_llm_orchestrato.Prelude.{
  ℕ, ◌+◌, ◌*◌, ◌≤◌, String, ◌≡◌, refl, or_default, List, [], ◌∷◌, ◌++◌, ltb, arith, if◌then◌else◌,
  ◌↔◌, Bool-cases, inl, inr,
}
use go_agent_llm_orchestrato.Harness.Manifest.{Sandbox}

-- What `getrlimit` answers for the hard limit.
pub data Ceiling : Type 0 where
  infinite unreadable : Ceiling
  at : ℕ → Ceiling

pub record Ceilings : Type 0 where
  pub address_space : Ceiling
  pub file_size : Ceiling
  pub cpu : Ceiling

pub record Rlimits : Type 0 where
  pub as_bytes : ℕ
  pub fsize_bytes : ℕ
  pub cpu_s : ℕ

pub data Violation : Type 0 where
  too_low : (label : String) (requested hard : ℕ) → Violation
  no_reading : (label : String) → Violation

abbrev pub violation : String → ℕ → Ceiling → List Violation
violation label target infinite = []
violation label target unreadable = no_reading label ∷ []
violation label target (at hard) = if ltb hard target then too_low label target hard ∷ [] else []

unfoldable pub check_rlimit_feasibility : Ceilings → Rlimits → List Violation
check_rlimit_feasibility c r =
    violation "AS(memory)" r.as_bytes c.address_space
    ++ violation "FSIZE" r.fsize_bytes c.file_size
    ++ violation "CPU" r.cpu_s c.cpu

abbrev pub default_rlimit_as_mb : ℕ
default_rlimit_as_mb = 4096

abbrev pub default_rlimit_fsize_mb : ℕ
default_rlimit_fsize_mb = 1024

abbrev pub rlimit_cpu_buffer_s : ℕ
rlimit_cpu_buffer_s = 30

unfoldable pub rlimits_of : Sandbox → ℕ → Rlimits
rlimits_of b cpu_timeout_s = record {
  as_bytes = or_default b.as_mb default_rlimit_as_mb * 1024 * 1024;
  fsize_bytes = or_default b.fsize_mb default_rlimit_fsize_mb * 1024 * 1024;
  cpu_s = cpu_timeout_s + rlimit_cpu_buffer_s;
}

-- The limit that is in force after a try to lower it to the target: an unprivileged process cannot
-- raise its hard limit, and a failure is swallowed.
unfoldable pub in_force : ℕ → Ceiling → Ceiling
in_force target infinite = at target
in_force target unreadable = unreadable
in_force target (at hard) = if ltb hard target then at hard else at target

-- A readable limit is at most the target.
abbrev pub IsCapped : ℕ → Ceiling → Type 0
IsCapped target infinite = ⊥
IsCapped target unreadable = Unit {0}
IsCapped target (at n) = n ≤ target

in_force-IsCapped : (target : ℕ) (c : Ceiling) → IsCapped target (in_force target c)
unfolding in_force
in_force-IsCapped target infinite = omega arith
in_force-IsCapped target unreadable = tt
in_force-IsCapped target (at hard) = elim (Bool-cases (ltb hard target)) [
  | inl e ↦ rw e (ground arith)
  | inr e ↦ rw e (omega arith)
]

violation_iff :
    (label : String) (target : ℕ) (c : Ceiling)
    → (violation label target c ≡ []) ↔ (in_force target c ≡ at target)
unfolding in_force
violation_iff label target infinite = (λ h. refl, λ h. refl)
violation_iff label target unreadable = (λ h. cc, λ h. cc)
violation_iff label target (at hard) = elim (Bool-cases (ltb hard target)) [
  | inl e ↦ rw e (λ h. cc, λ h. (let same : hard ≡ target = cc in ground arith))
  | inr e ↦ rw e (λ h. refl, λ h. refl)
]

three-nil :
    {A : Type 0} (xs ys zs : List A) → (xs ++ ys ++ zs ≡ []) ↔ ((xs ≡ []) × ((ys ≡ []) × (zs ≡ [])))
three-nil [] [] zs = (λ h. (refl, (refl, h)), λ h. h.1.1)
three-nil [] (y ∷ ys) zs = (λ h. cc, λ h. cc)
three-nil (x ∷ xs) ys zs = (λ h. cc, λ h. cc)

-- The check before the spawn reports nothing exactly when each of the three limits that the child
-- sets is afterwards in force as requested.
pub check_rlimit_feasibility_iff :
    (c : Ceilings) (r : Rlimits)
    → (check_rlimit_feasibility c r ≡ []) ↔ (
        (in_force r.as_bytes c.address_space ≡ at r.as_bytes)
        × ((in_force r.fsize_bytes c.file_size ≡ at r.fsize_bytes)
            × (in_force r.cpu_s c.cpu ≡ at r.cpu_s)))
unfolding check_rlimit_feasibility
check_rlimit_feasibility_iff c r =
    let (a, b) = violation_iff "AS(memory)" r.as_bytes c.address_space in
    let (d, e) = violation_iff "FSIZE" r.fsize_bytes c.file_size in
    let (f, g) = violation_iff "CPU" r.cpu_s c.cpu in
    let (h, k) =
      three-nil (violation "AS(memory)" r.as_bytes c.address_space)
        (violation "FSIZE" r.fsize_bytes c.file_size) (violation "CPU" r.cpu_s c.cpu) in
    (λ n. (let (x, (y, z)) = h n in (a x, (d y, f z))), λ (x, (y, z)). k (b x, (e y, g z)))
