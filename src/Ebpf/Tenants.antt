-- ===== src/Ebpf/Tenants.antt =====
-- src/ebpf/ebpf_enhanced_monitor.c: the list of all tenants, and the map from processes to tenants.
use mtrdma_artifact.Common.{
  ℕ, zero, suc, ◌<◌, ◌≡◌, ◌≢◌, refl, true, false, not, Option, none, some, List, [], ◌∷◌, ok, fail,
  arith, if◌then◌else◌, ◌==◌, is_negative, Option-cases, inl, inr,
}
use mtrdma_artifact.Common.CString.{take}
use mtrdma_artifact.Ebpf.{
  TenantResource, Kernel, MonitorState, BpfMap, IsLawful, list_tenants,
  ebpf_get_all_tenant_resources, ebpf_set_tenant_id, ebpf_get_tenant_id,
}

-- The key that is given to bpf_map_get_next_key behind `prev_key`.
abbrev start : ℕ → Option ℕ
start prev_key = if prev_key == 0 then none else some prev_key

-- The traversal behind a key gives these keys, which all are in the map and none of which is 0, and
-- ends.
pub data Lists (kernel : Kernel) : ℕ → List ℕ → Type 0 where
  ends : {prev : ℕ} → kernel.next_tenant (start prev) ≡ none → Lists kernel prev []
  goes_on :
      {prev key : ℕ} {r : TenantResource} {keys : List ℕ}
      → kernel.next_tenant (start prev) ≡ some key
      → key ≢ 0
      → kernel.tenant_resources key ≡ some r
      → Lists kernel key keys
      → Lists kernel prev (key ∷ keys)

unfoldable pub length : List ℕ → ℕ
length [] = 0
length (x ∷ xs) = suc (length xs)

abbrev pub cons_some {ℓ} : {A : Type ℓ} → Option A → List A → List A
cons_some none xs = xs
cons_some (some a) xs = a ∷ xs

-- The entries of the keys.
unfoldable pub entries : Kernel → List ℕ → List TenantResource
entries kernel [] = []
entries kernel (key ∷ keys) = cons_some (kernel.tenant_resources key) (entries kernel keys)

unfoldable pub copies : ℕ → TenantResource → List TenantResource
copies zero r = []
copies (suc n) r = r ∷ copies n r

list_tenants-Lists :
    (kernel : Kernel) (fuel left : ℕ) {prev : ℕ} {keys : List ℕ}
    → Lists kernel prev keys
    → length keys < fuel
    → list_tenants kernel fuel prev left ≡ some (take left (entries kernel keys))
unfolding list_tenants length entries
list_tenants-Lists kernel zero left l enough = absurd (omega arith)
list_tenants-Lists kernel (suc fuel) zero l enough = refl
list_tenants-Lists kernel (suc fuel) (suc left) (ends e) enough = ground (arith, e)
list_tenants-Lists kernel (suc fuel) (suc left) (goes_on {key} e nz own l) enough = ground (
  arith,
  e,
  own,
  list_tenants-Lists kernel fuel (suc left) l (omega arith),
  list_tenants-Lists kernel fuel left l (omega arith),
)

list_tenants-zero :
    (kernel : Kernel) (r : TenantResource) (fuel left : ℕ)
    → kernel.next_tenant none ≡ some 0
    → kernel.tenant_resources 0 ≡ some r
    → left < fuel
    → list_tenants kernel fuel 0 left ≡ some (copies left r)
unfolding list_tenants copies
list_tenants-zero kernel r zero left first entry enough = absurd (omega arith)
list_tenants-zero kernel r (suc fuel) zero first entry enough = refl
list_tenants-zero kernel r (suc fuel) (suc left) first entry enough =
    ground (arith, first, entry, list_tenants-zero kernel r fuel left first entry (omega arith))

-- For a positive number of places, with the map of the tenants open: if no tenant has the number 0 and
-- the map does not change during the call, the loop ends after one test more than there are keys, and
-- stores the entries of the keys, in the map's order, as many as there is room for.
pub get_all_tenants-Lists :
    (kernel : Kernel) (s : MonitorState) (keys : List ℕ) (fuel max_count : ℕ)
    → s.map_fds.tenant_resources_fd ≡ true
    → max_count ≢ 0
    → is_negative max_count ≡ false
    → Lists kernel 0 keys
    → length keys < fuel
    → ebpf_get_all_tenant_resources kernel fuel max_count s
      ≡ some (ok, take max_count (entries kernel keys))
unfolding ebpf_get_all_tenant_resources
get_all_tenants-Lists kernel s keys fuel max_count opened pos small l enough =
    rw (opened, small, list_tenants-Lists kernel fuel max_count l enough) (ground arith)

-- If the first tenant in the map has the number 0, and it stays there, then all places are filled with
-- its entry, whatever other tenants there are.
pub get_all_tenants-zero :
    (kernel : Kernel) (s : MonitorState) (r : TenantResource) (fuel max_count : ℕ)
    → s.map_fds.tenant_resources_fd ≡ true
    → max_count ≢ 0
    → is_negative max_count ≡ false
    → kernel.next_tenant none ≡ some 0
    → kernel.tenant_resources 0 ≡ some r
    → max_count < fuel
    → ebpf_get_all_tenant_resources kernel fuel max_count s ≡ some (ok, copies max_count r)
unfolding ebpf_get_all_tenant_resources
get_all_tenants-zero kernel s r fuel max_count opened pos small first entry enough =
    rw (opened, small, list_tenants-zero kernel r fuel max_count first entry enough) (ground arith)

-- With a map from processes to tenants that behaves as documented: after a successful
-- `ebpf_set_tenant_id` a reader of that process gets the tenant, and a reader of any other what it got
-- before; after one that failed every reader gets what it got before. Without such a map the call
-- succeeds, and every process has tenant 0.
pub get_tenant_id-set_tenant_id :
    (B : BpfMap)
    → IsLawful B
    → (s : MonitorState) (pid q id : ℕ) (m : B.Map)
    → let (r, m') = ebpf_set_tenant_id B s pid id m in
      let old = ebpf_get_tenant_id B s q m in
      ebpf_get_tenant_id B s q m' ≡ (
        if not s.map_fds.pid_to_tenant_fd
        then 0
        else elim r [ ok ↦ if q == pid then id else old | fail ↦ old ])
unfolding ebpf_set_tenant_id ebpf_get_tenant_id
get_tenant_id-set_tenant_id B lawful s pid q id m = elim (Option-cases (B.update_elem m pid id)) [
  | inl e ↦ ground (arith, e)
  | inr (m', e) ↦ ground (arith, e, lawful.lookup-update m m' pid id q e)
]
