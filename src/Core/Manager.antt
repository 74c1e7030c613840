-- ===== src/Core/Manager.antt =====
-- crates/bouvet-core/src/manager.rs: the registry of sandboxes. Each method is modelled as it runs
-- with no other method of the manager between its steps.
pub mod Registry
pub mod Limit
pub mod Cids
pub mod Destroy
pub mod Added
pub mod Race
pub mod Owners
use petty.Shared.{
  ℕ, ◌+◌, ◌%◌, ◌^◌, Bool, true, false, List, [], ◌∷◌, ◌++◌, Option, none, some, leb, ltb, ◌==◌,
  if◌then◌else◌, length, ◌&&◌,
}
use petty.Shared.Result.{Result, ok, err, Action}
use petty.Text.{Str, lit}
use petty.Text.Decimal.{decimal}
use petty.Text.FilePath.{FilePath}
use petty.Host.{Uuid, Trace}
use petty.Core.Error.{CoreError, connection, not_found}
use petty.Core.Config.{SandboxConfig, builder, kernel, rootfs, build}
use petty.Core.Client.Methods.{ExecResult, FileEntry}
use petty.Core.Sandbox.{Sandbox, Libraries, SandboxMethod}
use petty.Core.Sandbox

pub record ManagerConfig : Type 0 where
  pub kernel_path : FilePath
  pub rootfs_path : FilePath
  pub firecracker_path : FilePath
  pub chroot_path : FilePath
  pub max_sandboxes : ℕ

-- `ManagerConfig::new`.
abbrev pub new_config : FilePath → FilePath → FilePath → FilePath → ManagerConfig
new_config kernel_path rootfs_path firecracker_path chroot_path = record {
  kernel_path = kernel_path;
  rootfs_path = rootfs_path;
  firecracker_path = firecracker_path;
  chroot_path = chroot_path;
  max_sandboxes = 100;
}

-- A hash map, by its entries in some order.
abbrev pub Registry : Type 0
Registry = List (Uuid × Sandbox)

unfoldable pub get : Uuid → Registry → Option Sandbox
get id [] = none
get id ((k, s) ∷ r) = if k == id then some s else get id r

unfoldable pub insert : Uuid → Sandbox → Registry → Registry
insert id s [] = (id, s) ∷ []
insert id s ((k, v) ∷ r) = if k == id then (id, s) ∷ r else (k, v) ∷ insert id s r

unfoldable pub remove : Uuid → Registry → Registry
remove id [] = []
remove id ((k, v) ∷ r) = if k == id then r else (k, v) ∷ remove id r

pub record SandboxManager : Type 0 where
  pub sandboxes : Registry
  pub config : ManagerConfig
  pub cid_counter : ℕ  -- AtomicU32

abbrev pub first_cid : ℕ
first_cid = 3

-- `SandboxManager::new`.
abbrev pub new : ManagerConfig → SandboxManager
new c = record { sandboxes = []; config = c; cid_counter = first_cid }

-- `fetch_add(1)` on an `AtomicU32`.
unfoldable pub next_cid : ℕ → ℕ
next_cid n = (n + 1) % 2 ^ 32

abbrev pub ManagerMethod : Type 0 → Type 0
ManagerMethod R = SandboxManager → Trace → Result CoreError R × SandboxManager × Trace

-- The limit of `create` and `register`, with 0 for none.
unfoldable pub at_limit : SandboxManager → Bool
at_limit m = ltb 0 m.config.max_sandboxes && leb m.config.max_sandboxes (length m.sandboxes)

pub limit_error : SandboxManager → CoreError
limit_error m =
    connection (lit "max sandbox limit reached (" ++ decimal m.config.max_sandboxes ++ lit ")")

-- Where the sandbox was created, it enters the registry under its own identifier.
unfoldable pub registered :
    SandboxManager
    → Result CoreError Sandbox × Trace
    → Result CoreError Uuid × SandboxManager × Trace
registered m (ok s, t) = (ok s.id, record m { sandboxes = insert s.id s m.sandboxes }, t)
registered m (err x, t) = (err x, m, t)

-- `SandboxManager::register`: a refused sandbox goes back to the caller with the error.
unfoldable pub register :
    SandboxManager → Sandbox → Result (CoreError × Sandbox) Uuid × SandboxManager
register m s =
    if at_limit m
    then (err (limit_error m, s), m)
    else (ok s.id, record m { sandboxes = insert s.id s m.sandboxes })

-- `exists`, `list` and `count`.
abbrev is_some {ℓ} : {A : Type ℓ} → Option A → Bool
is_some none = false
is_some (some a) = true

unfoldable pub exists : SandboxManager → Uuid → Bool
exists m id = is_some (get id m.sandboxes)

unfoldable pub keys : Registry → List Uuid
keys [] = []
keys ((k, s) ∷ r) = k ∷ keys r

unfoldable pub list : SandboxManager → List Uuid
unfolding keys
list m = keys m.sandboxes

unfoldable pub count : SandboxManager → ℕ
count m = length m.sandboxes

-- `with_sandbox`: a function of a sandbox that is there.
unfoldable pub with_sandbox :
    {R : Type 0} → SandboxManager → Uuid → (Sandbox → R) → Result CoreError R
with_sandbox m id f = elim (get id m.sandboxes) [ none ↦ err (not_found id) | some s ↦ ok (f s) ]

-- A method of a sandbox through the registry, where its client changes.
on_sandbox : {R : Type 0} → Uuid → SandboxMethod R → ManagerMethod R
on_sandbox id f m t = elim (get id m.sandboxes) [
  | none ↦ (err (not_found id), m, t)
  | some s ↦ let (r, s', t') = f s t in (r, record m { sandboxes = insert id s' m.sandboxes }, t')
]

-- `with_sandbox_async`: the caller's operation on a sandbox, of which only the client may change.
unfoldable pub with_sandbox_async : {R : Type 0} → Uuid → SandboxMethod R → ManagerMethod R
unfolding on_sandbox
with_sandbox_async id f = on_sandbox id f

module _ (l : Libraries) where
  create_below : SandboxConfig → ManagerMethod Uuid
  unfolding registered
  create_below c m t =
      registered (record m { cid_counter = next_cid m.cid_counter })
        (Sandbox.create l (record c { vsock_cid = m.cid_counter }) t)

  -- `SandboxManager::create`.
  unfoldable pub create : SandboxConfig → ManagerMethod Uuid
  unfolding create_below
  create c m t = if at_limit m then (err (limit_error m), m, t) else create_below c m t

  -- `SandboxManager::create_default`.
  unfoldable pub create_default : ManagerMethod Uuid
  create_default m t =
      elim (build (rootfs (kernel builder m.config.kernel_path) m.config.rootfs_path)) [
        | ok c ↦ create c m t
        | err x ↦ (err x, m, t)
      ]

  -- `SandboxManager::destroy`.
  unfoldable pub destroy : Uuid → ManagerMethod (Unit {0})
  destroy id m t = elim (get id m.sandboxes) [
    | none ↦ (err (not_found id), m, t)
    | some s ↦
        let (r, t') = Sandbox.destroy l s t in
        (r, record m { sandboxes = remove id m.sandboxes }, t')
  ]

  -- The loop of `destroy_all`, which logs the errors.
  pub destroy_each : Registry → Trace → Trace
  destroy_each [] t = t
  destroy_each ((k, s) ∷ r) t = destroy_each r (Sandbox.destroy l s t).1

  -- `SandboxManager::destroy_all`.
  unfoldable pub destroy_all : ManagerMethod (Unit {0})
  unfolding destroy_each
  destroy_all m t = (ok tt, record m { sandboxes = [] }, destroy_each m.sandboxes t)

  unfoldable pub execute : Uuid → Str → ManagerMethod ExecResult
  unfolding on_sandbox
  execute id command = on_sandbox id (Sandbox.execute l command)

  unfoldable pub execute_code : Uuid → Str → Str → ManagerMethod ExecResult
  unfolding on_sandbox
  execute_code id language code = on_sandbox id (Sandbox.execute_code l language code)

  unfoldable pub read_file : Uuid → Str → ManagerMethod Str
  unfolding on_sandbox
  read_file id path = on_sandbox id (Sandbox.read_file l path)

  unfoldable pub write_file : Uuid → Str → Str → ManagerMethod (Unit {0})
  unfolding on_sandbox
  write_file id path content = on_sandbox id (Sandbox.write_file l path content)

  unfoldable pub list_dir : Uuid → Str → ManagerMethod (List FileEntry)
  unfolding on_sandbox
  list_dir id path = on_sandbox id (Sandbox.list_dir l path)
