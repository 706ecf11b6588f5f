-- ===== src/Ebpf/Attach.antt =====
-- src/ebpf/ebpf_enhanced_monitor.c: loading the programs, and taking them down again.
use mtrdma_artifact.Common.{
  ℕ, suc, ◌+◌, ◌≤◌, ◌≡◌, refl, ◌∙◌, Bool, true, false, not, Option, none, some, List, [], ◌∷◌, ◌++◌,
  ◌&&◌, ap, Bool-cases, inl, inr, Status, ok, fail, Os, arith, if◌then◌else◌, leb,
}
use mathlib.Core.List.{append_assoc, append-nil}
use mtrdma_artifact.Shm.{shm_init}
use mtrdma_artifact.Ebpf.{MapFds, no_fds, MonitorState, BpfMap, ebpf_set_filter_config}
use mtrdma_artifact.Ebpf.Tenants.{length, cons_some}

-- A program of the object: whether its name has `kprobe_` or `kretprobe_` in it, and the link that
-- `bpf_program__attach` gives.
pub record Program : Type 0 where
  pub is_probe : Bool
  pub link : Option ℕ

-- What the system and libbpf answer: to shm_init, whether the file of the object is there, can be
-- opened and loaded, which maps it has, and its programs.
pub record Loader : Type 0 where
  pub os : Os
  pub exists : Bool
  pub opens : Bool
  pub loads : Bool
  pub maps : MapFds
  pub programs : List Program

abbrev pub max_links : ℕ
max_links = 16

-- `links[link_count++] = link`; `none` is a write behind the array.
pub push_link : ℕ → List ℕ → Option (List ℕ)
push_link link links = if leb max_links (length links) then none else some (links ++ link ∷ [])

-- The link of a program that is attached; `none` for one that is no probe or is refused.
unfoldable pub link_of : Program → Option ℕ
link_of p = if p.is_probe then p.link else none

-- One turn of the loop.
pub attach_link : Option ℕ → List ℕ → Option (List ℕ)
unfolding push_link
attach_link none links = some links
attach_link (some link) links = push_link link links

-- The loop over the programs.
pub attach_programs : List Program → List ℕ → Option (List ℕ)
unfolding attach_link link_of
attach_programs [] links = some links
attach_programs (p ∷ ps) links = elim (attach_link (link_of p) links) [
  | none ↦ none
  | some links' ↦ attach_programs ps links'
]

module _ (B : BpfMap) where
  -- The last part: the links, and the filter; the result of the latter is not looked at.
  pub start_programs : Loader → MonitorState → B.Map → Option (Status × MonitorState × B.Map)
  unfolding attach_programs
  start_programs loader s filter = elim (attach_programs loader.programs s.links) [
    | none ↦ none
    | some links ↦
        let s' : MonitorState = record s { obj = true; links = links; map_fds = loader.maps } in
        some (ok, s', (ebpf_set_filter_config B s' true true filter).1)
  ]

  pub ebpf_enhanced_monitor_init :
      Loader → MonitorState → B.Map → Option (Status × MonitorState × B.Map)
  unfolding start_programs
  ebpf_enhanced_monitor_init loader s filter =
      let (r, shm) = shm_init loader.os s.shm in
      let s' : MonitorState = record s { shm = shm } in
      elim r [
        | fail ↦ some (fail, s', filter)
        | ok ↦
            if not loader.exists
            then some (ok, s', filter)
            else if not loader.opens
            then some (ok, record s' { obj = false }, filter)
            else if not loader.loads
            then some (ok, record s' { obj = false }, filter)
            else start_programs loader s' filter
      ]

-- With the links that are destroyed.
pub ebpf_enhanced_monitor_cleanup : MonitorState → List ℕ × MonitorState
ebpf_enhanced_monitor_cleanup s = (s.links, record s { obj = false; links = []; map_fds = no_fds })

-- The links of the probes that could be attached.
unfoldable pub attached_links : List Program → List ℕ
attached_links [] = []
attached_links (p ∷ ps) =
    let rest = attached_links ps in if p.is_probe then cons_some p.link rest else rest

link_of-probe :
    (p : Program) (rest : List ℕ)
    → cons_some (link_of p) rest ≡ (if p.is_probe then cons_some p.link rest else rest)
unfolding link_of
link_of-probe p rest = elim (Bool-cases p.is_probe) [ inl e ↦ rw e refl | inr e ↦ rw e refl ]

length-append_one : (xs : List ℕ) (x : ℕ) → length (xs ++ x ∷ []) ≡ suc (length xs)
unfolding length
length-append_one [] x = refl
length-append_one (y ∷ xs) x = ap suc (length-append_one xs x)

-- What the loop leaves: all links in order, or a write behind the array.
abbrev fitted : List ℕ → List ℕ → Option (List ℕ)
fitted links more =
    if leb (length links + length more) max_links then some (links ++ more) else none

fitted_nil : (links : List ℕ) → length links ≤ max_links → some links ≡ fitted links []
unfolding length
fitted_nil links room = rw append-nil (ground arith)

fitted_cons :
    (links more : List ℕ) (link : ℕ) → fitted (links ++ link ∷ []) more ≡ fitted links (link ∷ more)
unfolding length
fitted_cons links more link = rw (length-append_one links link, append_assoc) (ground arith)

-- One program, given the loop over the rest.
attach_next :
    (ps : List Program) (l : Option ℕ) (links : List ℕ)
    → ((links' : List ℕ)
        → length links' ≤ max_links
        → attach_programs ps links' ≡ fitted links' (attached_links ps))
    → length links ≤ max_links
    → elim (attach_link l links) [ none ↦ none | some links' ↦ attach_programs ps links' ]
      ≡ fitted links (cons_some l (attached_links ps))
unfolding attach_link push_link
attach_next ps none links ih room = ih links room
attach_next ps (some link) links ih room = elim (Bool-cases (leb max_links (length links))) [
  | inl full ↦ rw full (unfold length in ground arith)
  | inr space ↦ rw space (
      ih (links ++ link ∷ []) (rw length-append_one (ground arith))
      ∙ fitted_cons links (attached_links ps) link)
]

attach_programs-links :
    (ps : List Program) (links : List ℕ)
    → length links ≤ max_links
    → attach_programs ps links ≡ fitted links (attached_links ps)
unfolding attach_programs attached_links
attach_programs-links [] links room = fitted_nil links room
attach_programs-links (p ∷ ps) links room =
    attach_next ps (link_of p) links (attach_programs-links ps) room
    ∙ ap (fitted links) (link_of-probe p (attached_links ps))

-- The links of an object that could be loaded.
abbrev pub started : Loader → List ℕ
started loader =
    if (loader.exists && loader.opens) && loader.loads then attached_links loader.programs else []

-- The result of a start, and what a clean up after it destroys and leaves.
abbrev pub clean_up {ℓ} :
    {F : Type ℓ} → Option (Status × MonitorState × F) → Option (Status × List ℕ × MonitorState)
clean_up none = none
clean_up (some (r, s, filter)) =
    let (links, s') = ebpf_enhanced_monitor_cleanup s in some (r, links, s')

start_programs-links :
    (B : BpfMap) (loader : Loader) (s : MonitorState) (filter : B.Map)
    → s.links ≡ []
    → clean_up (start_programs B loader s filter) ≡ (
        if leb (length (attached_links loader.programs)) max_links
        then some (
          ok,
          attached_links loader.programs,
          record { obj = false; links = []; map_fds = no_fds; shm = s.shm },
        )
        else none)
unfolding start_programs ebpf_enhanced_monitor_cleanup length
start_programs-links B loader s filter empty =
    let looped =
      ap (attach_programs loader.programs) empty
      ∙ attach_programs-links loader.programs [] (omega arith) in
    ground (arith, looped)

-- A start with the shared object available, of a monitor without links: it succeeds, whether or not
-- there are programs to load, exactly if at most 16 probes are attached, and with more it writes behind
-- its array. A clean up after it destroys each link that was attached, once and in order, and leaves no
-- object, no link and no map.
pub cleanup-init :
    (B : BpfMap) (loader : Loader) (s : MonitorState) (filter : B.Map)
    → s.links ≡ []
    → (shm_init loader.os s.shm).0 ≡ ok
    → clean_up (ebpf_enhanced_monitor_init B loader s filter) ≡ (
        if leb (length (started loader)) max_links
        then some (
          ok,
          started loader,
          record { obj = false; links = []; map_fds = no_fds; shm = (shm_init loader.os s.shm).1 },
        )
        else none)
unfolding ebpf_enhanced_monitor_init ebpf_enhanced_monitor_cleanup length
cleanup-init B loader s filter empty mapped = ground (
  arith,
  empty,
  mapped,
  start_programs-links B loader (record s { shm = (shm_init loader.os s.shm).1 }) filter empty,
)
