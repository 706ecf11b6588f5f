-- ===== src/Collector/Living.antt =====
-- src/collector_server_shm.c: which texts of /proc/[pid]/status keep a process from the reclaiming.
use mtrdma_artifact.Common.{
  ℕ, zero, suc, ◌+◌, if◌then◌else◌, ◌<◌, ◌≤◌, ◌≡◌, refl, sym, ap, ◌∙◌, Bool, true, false, ◌||◌,
  some, List, [], ◌∷◌, ◌++◌, arith, ◌==◌, inl, inr,
}
use mtrdma_artifact.Common.CString.{fgets, line_of, drop}
use mtrdma_artifact.Shm.{shm_get_process_resources}
use mtrdma_artifact.Shm.Accounts.{IsValid}
use mtrdma_artifact.Collector.{GcState, GcHost, gc_scan_and_register}
use mtrdma_artifact.Collector.Status.{
  has_prefix, alive_by_state, alive_by_lines, alive_by_file, gc_is_process_really_alive, length,
}
use mtrdma_artifact.Collector.Scan.{scan-Spares}

-- "State:"
abbrev pub state_word : List ℕ
state_word = b'S' ∷ b't' ∷ b'a' ∷ b't' ∷ b'e' ∷ b':' ∷ []

abbrev pub has_newline : List ℕ → Bool
has_newline [] = false
has_newline (x ∷ xs) = (x == 10) || has_newline xs

-- The letter of the state in a text as proc(5) describes it: in the line that begins with "State:" and
-- a tab, behind lines of at most 254 bytes that begin otherwise.
pub data HasState (c : ℕ) : List ℕ → Type 0 where
  here : (rest : List ℕ) → HasState c (state_word ++ 9 ∷ c ∷ rest)
  below :
      (line text : List ℕ)
      → has_newline line ≡ false
      → length line < 255
      → has_prefix state_word (line ++ 10 ∷ []) ≡ false
      → HasState c text
      → HasState c (line ++ 10 ∷ text)

-- Running, sleeping, waiting for a disk, or stopped by a signal.
abbrev pub is_living : ℕ → Bool
is_living c = (c == b'R') || (c == b'S') || (c == b'D') || (c == b'T')

line_of-line :
    (n : ℕ) (line text : List ℕ)
    → has_newline line ≡ false
    → length line < n
    → line_of n (line ++ 10 ∷ text) ≡ (line ++ 10 ∷ [], text)
unfolding line_of length
line_of-line zero line text clean short = absurd (omega arith)
line_of-line (suc n) [] text clean short = refl
line_of-line (suc n) (x ∷ xs) text clean short =
    let ih = line_of-line n xs text (ground (arith, clean)) (omega arith) in
    let other : (x == 10) ≡ false = ground (arith, clean) in rw (ih, other) refl

fgets-line :
    (line text : List ℕ)
    → has_newline line ≡ false
    → length line < 255
    → fgets 256 (line ++ 10 ∷ text) ≡ some (line ++ 10 ∷ [], text)
unfolding fgets
fgets-line [] text clean short = ap some (line_of-line 255 [] text clean short)
fgets-line (x ∷ xs) text clean short = ap some (line_of-line 255 (x ∷ xs) text clean short)

length-line : (line text : List ℕ) → length text < length (line ++ 10 ∷ text)
unfolding length
length-line [] text = omega arith
length-line (x ∷ xs) text = let ih = length-line xs text in omega arith

by_letter : (c : ℕ) (rest : List ℕ) → is_living c ≡ true → alive_by_state (9 ∷ c ∷ rest) ≡ true
unfolding alive_by_state
by_letter c rest living = ground arith

line_of-append :
    (m n : ℕ) (front rest : List ℕ)
    → m ≡ length front + n
    → has_newline front ≡ false
    → line_of m (front ++ rest) ≡ (front ++ (line_of n rest).0, (line_of n rest).1)
unfolding line_of length
line_of-append m n [] rest e clean = ap (λ k. line_of k rest) (omega (arith, e))
line_of-append zero n (x ∷ xs) rest e clean = absurd (omega (arith, e))
line_of-append (suc m) n (x ∷ xs) rest e clean =
    let ih = line_of-append m n xs rest (omega (arith, e)) (ground (arith, clean)) in
    let other : (x == 10) ≡ false = ground (arith, clean) in rw (ih, other) refl

fgets-state :
    (c : ℕ) (rest : List ℕ)
    → has_newline (state_word ++ 9 ∷ c ∷ []) ≡ false
    → fgets 256 (state_word ++ 9 ∷ c ∷ rest)
      ≡ some (state_word ++ 9 ∷ c ∷ (line_of 247 rest).0, (line_of 247 rest).1)
unfolding fgets length
fgets-state c rest clean =
    ap some (line_of-append 255 247 (state_word ++ 9 ∷ c ∷ []) rest refl clean)

alive_by_lines-fgets :
    (fuel : ℕ) (text line rest : List ℕ)
    → fgets 256 text ≡ some (line, rest)
    → alive_by_lines (suc fuel) text ≡ (
        if has_prefix state_word line
        then alive_by_state (drop 6 line)
        else alive_by_lines fuel rest)
unfolding alive_by_lines
alive_by_lines-fgets fuel text line rest e = rw (alive_by_lines, e) refl

in_line :
    (n c : ℕ) (rest : List ℕ)
    → is_living c ≡ true
    → alive_by_lines (suc n) (state_word ++ 9 ∷ c ∷ rest) ≡ true
unfolding has_prefix
in_line n c rest living =
    alive_by_lines-fgets n _ _ _ (fgets-state c rest (ground (arith, living)))
    ∙ by_letter c (line_of 247 rest).0 living

alive_by_lines-HasState :
    (fuel c : ℕ) (text : List ℕ)
    → HasState c text
    → is_living c ≡ true
    → length text ≤ fuel
    → alive_by_lines fuel text ≡ true
unfolding length
alive_by_lines-HasState zero c _ (here rest) living enough = absurd (omega arith)
alive_by_lines-HasState (suc fuel) c _ (here rest) living enough = in_line fuel c rest living
alive_by_lines-HasState zero c _ (below line text clean short other h) living enough =
    let l = length-line line text in absurd (omega arith)
alive_by_lines-HasState (suc fuel) c _ (below line text clean short other h) living enough =
    let l = length-line line text in
    alive_by_lines-fgets fuel _ _ _ (fgets-line line text clean short)
    ∙ rw other (alive_by_lines-HasState fuel c text h living (omega arith))

-- On a valid object a scan takes from no process that /proc/[pid]/status shows as running, sleeping,
-- waiting for a disk or stopped by a signal: a reader of it gets what it got before.
pub scan-HasState :
    (host : GcHost) (g : GcState) (q c : ℕ) (text : List ℕ)
    → IsValid g.shm.region
    → host.status q ≡ some text
    → HasState c text
    → is_living c ≡ true
    → shm_get_process_resources q (gc_scan_and_register host g).shm
      ≡ shm_get_process_resources q g.shm
unfolding gc_is_process_really_alive alive_by_file
scan-HasState host g q c text v shown h living = elim (scan-Spares host g q v) [
  | inl kept ↦ kept
  | inr (zeroed, dead) ↦
      let alive = alive_by_lines-HasState (length text) c text h living (omega arith) in
      let dead' : alive_by_file (some text) ≡ false = ap alive_by_file (sym shown) ∙ dead in
      absurd (ground (arith, alive, dead'))
]
