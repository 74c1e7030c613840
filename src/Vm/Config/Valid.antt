-- ===== src/Vm/Config/Valid.antt =====
-- What `MachineConfig::validate` accepts, against limits stated apart from the code.
use petty.Shared.{
  ◌≤◌, ◌≡◌, refl, ◌≢◌, ◌↔◌, ◌⊎◌, inl, inr, false, ◌||◌, List, [], ◌∷◌, ◌++◌, map, All, Option, none,
  some, arith, Bool-cases, ltb, leb, ◌==◌,
}
use petty.Shared.Result.{Result, ok, err, and_then}
use petty.Text.{Str, eq_str, eq_str→eq, eq_str_refl}
use petty.Vm.Error.{VmError, config}
use petty.Vm.Config.{
  DriveConfig, VsockConfig, MachineConfig, contains, check_drive_ids, check_vsock, validate,
}

-- No text stands twice in the list.
abbrev pub Distinct : List Str → Type 0
Distinct [] = Unit
Distinct (s ∷ ss) = All (λ t. s ≢ t) ss × Distinct ss

abbrev pub CidAllowed : Option VsockConfig → Type 0
CidAllowed none = Unit
CidAllowed (some v) = 3 ≤ v.guest_cid

abbrev pub drive_ids : MachineConfig → List Str
drive_ids c = map (λ d. d.drive_id) (c.root_drive ∷ c.extra_drives)

-- The limits of Firecracker that the crate's documentation names.
pub record IsValid (c : MachineConfig) : Type 0 where
  pub vcpus : (1 ≤ c.vcpu_count) × (c.vcpu_count ≤ 32)
  pub memory : (128 ≤ c.memory_mib) × (c.memory_mib ≤ 32768)
  pub cid : CidAllowed c.vsock
  pub drives : Distinct (drive_ids c)

contains-append :
    (seen : List Str) (s i : Str) → contains (seen ++ s ∷ []) i ≡ (contains seen i || eq_str s i)
unfolding contains
contains-append [] s i = ground arith
contains-append (t ∷ ts) s i = ground (arith, contains-append ts s i)

abbrev Unseen : List Str → List Str → Type 0
Unseen seen = All (λ i. contains seen i ≡ false)

-- Nothing of `is` is seen after one more entry exactly when nothing was before, and the entry is
-- none of them.
Unseen-append→ :
    (seen : List Str) (s : Str) (is : List Str)
    → Unseen (seen ++ s ∷ []) is
    → Unseen seen is × All (λ i. s ≢ i) is
Unseen-append→ seen s [] h = (tt, tt)
Unseen-append→ seen s (i ∷ is) h =
    let (a, b) = Unseen-append→ seen s is h.1 in
    (
      (ground (arith, contains-append seen s i), a),
      (λ e. ground (arith, contains-append seen s i, eq_str_refl s), b),
    )

Unseen-append← :
    (seen : List Str) (s : Str) (is : List Str)
    → Unseen seen is
    → All (λ i. s ≢ i) is
    → Unseen (seen ++ s ∷ []) is
Unseen-append← seen s [] h k = tt
Unseen-append← seen s (i ∷ is) h k =
    (ground (arith, contains-append seen s i, eq_str→eq s i), Unseen-append← seen s is h.1 k.1)

abbrev ids : List DriveConfig → List Str
ids = map (λ d. d.drive_id)

check_drive_ids→ :
    (seen : List Str) (ds : List DriveConfig)
    → check_drive_ids seen ds ≡ ok tt
    → Unseen seen (ids ds) × Distinct (ids ds)
unfolding check_drive_ids
check_drive_ids→ seen [] h = (tt, tt)
check_drive_ids→ seen (d ∷ ds) h = elim (Bool-cases (contains seen d.drive_id)) [
  | inl dup ↦ absurd (ground arith)
  | inr new ↦
      let (u, r) = check_drive_ids→ (seen ++ d.drive_id ∷ []) ds (ground arith) in
      let (v, w) = Unseen-append→ seen d.drive_id (ids ds) u in ((new, v), (w, r))
]

check_drive_ids← :
    (seen : List Str) (ds : List DriveConfig)
    → Unseen seen (ids ds)
    → Distinct (ids ds)
    → check_drive_ids seen ds ≡ ok tt
unfolding check_drive_ids
check_drive_ids← seen [] u r = refl
check_drive_ids← seen (d ∷ ds) u r = rw (u.0) (
    check_drive_ids← (seen ++ d.drive_id ∷ []) ds (Unseen-append← seen d.drive_id (ids ds) u.1 r.0)
      r.1)

root-Unseen : (s : Str) (is : List Str) → Unseen (s ∷ []) is ↔ All (λ i. s ≢ i) is
root-Unseen s is = (λ h. (Unseen-append→ [] s is h).1, Unseen-append← [] s is (nothing_seen is))
  where
    nothing_seen : (is : List Str) → Unseen [] is
    nothing_seen [] = tt
    nothing_seen (i ∷ is) = (unfold contains in refl, nothing_seen is)

check_vsock_iff : (v : Option VsockConfig) → (check_vsock v ≡ ok tt) ↔ CidAllowed v
unfolding check_vsock
check_vsock_iff none = (λ _. tt, λ _. refl)
check_vsock_iff (some v) = (λ h. ground arith, λ h. ground arith)

validate→ : (c : MachineConfig) → validate c ≡ ok tt → IsValid c
unfolding validate
validate→ c h =
    let (u, r) = check_drive_ids→ (c.root_drive.drive_id ∷ []) c.extra_drives (ground arith) in
    record {
      vcpus = ground arith;
      memory = ground arith;
      cid = (check_vsock_iff c.vsock).0 (ground arith);
      drives = ((root-Unseen c.root_drive.drive_id (ids c.extra_drives)).0 u, r);
    }

validate← : (c : MachineConfig) → IsValid c → validate c ≡ ok tt
unfolding validate
validate← c v = ground (
  arith,
  (check_vsock_iff c.vsock).1 v.cid,
  check_drive_ids← (c.root_drive.drive_id ∷ []) c.extra_drives
      ((root-Unseen c.root_drive.drive_id (ids c.extra_drives)).1 v.drives.0) v.drives.1,
)

-- `validate` accepts a configuration exactly when its vCPU count is from 1 to 32, its memory from
-- 128 to 32768 MiB, its vsock CID, if it has one, at least 3, and its drive ids are all different.
pub validate_iff : (c : MachineConfig) → (validate c ≡ ok tt) ↔ IsValid c
validate_iff c = (validate→ c, validate← c)

abbrev Refusal : Result VmError (Unit {0}) → Type 0
Refusal r = (r ≡ ok tt) ⊎ ((m : Str) × (r ≡ err (config m)))

check_drive_ids_cases :
    (seen : List Str) (ds : List DriveConfig) → Refusal (check_drive_ids seen ds)
unfolding check_drive_ids
check_drive_ids_cases seen [] = inl refl
check_drive_ids_cases seen (d ∷ ds) = elim (Bool-cases (contains seen d.drive_id)) [
  | inl dup ↦ rw dup (inr (_, refl))
  | inr new ↦ rw new (check_drive_ids_cases (seen ++ d.drive_id ∷ []) ds)
]

-- A configuration is accepted, or it is refused with a configuration error.
pub validate_cases : (c : MachineConfig) → Refusal (validate c)
unfolding validate
validate_cases c = elim (Bool-cases (c.vcpu_count == 0 || ltb 32 c.vcpu_count)) [
  | inl a ↦ rw a (inr (_, refl))
  | inr a ↦ rw a (elim (Bool-cases (ltb c.memory_mib 128)) [
    | inl b ↦ rw b (inr (_, refl))
    | inr b ↦ rw b (elim (Bool-cases (ltb 32768 c.memory_mib)) [
      | inl d ↦ rw d (inr (_, refl))
      | inr d ↦ rw d (rest c.vsock)
    ])
  ])
]
  where
    rest :
        (v : Option VsockConfig)
        → Refusal (
            and_then
              (check_vsock v)
              (λ _. check_drive_ids (c.root_drive.drive_id ∷ []) c.extra_drives))
    rest none = check_drive_ids_cases (c.root_drive.drive_id ∷ []) c.extra_drives
    rest (some v) = elim (Bool-cases (leb v.guest_cid 2)) [
      | inl r ↦ rw (r, check_vsock) (inr (_, refl))
      | inr r ↦
          rw (r, check_vsock) (check_drive_ids_cases (c.root_drive.drive_id ∷ []) c.extra_drives)
    ]
