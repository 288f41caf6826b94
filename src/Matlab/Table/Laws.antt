-- ===== src/Matlab/Table/Laws.antt =====
-- The table as a function from handles to sessions, and its invariant.
use antsdr_dfone.Prelude.{
  ℕ, suc, ◌<◌, ◌≤◌, ◌≡◌, refl, subst, [], ◌∷◌, Option, some, none, inl, inr, arith, ◌==◌,
  if◌then◌else◌, Bool-cases, if-elim, length,
}
use antsdr_dfone.Session.{Session}
use antsdr_dfone.Session.Invariant.{IsSound}
use antsdr_dfone.Matlab.Table.{Table, find_slot, emplace_slot, erase_slot, change_slot}

-- A function, changed at one handle.
abbrev pub update : (ℕ → Option Session) → ℕ → Option Session → ℕ → Option Session
update f h o k = if k == h then o else f k

-- Handles are below the next one and listed once, and the sessions are sound.
abbrev pub IsTable : ℕ → Table → Type 0
IsTable next [] = Unit {0}
IsTable next ((k, s) ∷ t) = (k < next) × (find_slot k t ≡ none) × IsSound s × IsTable next t

pub IsTable-find_slot :
    (next h : ℕ) (t : Table) {s : Session} → IsTable next t → find_slot h t ≡ some s → h < next
unfolding find_slot
IsTable-find_slot next h [] v e = absurd (ground arith)
IsTable-find_slot next h (x ∷ t) {s} v e = ground (arith, IsTable-find_slot next h t {s = s} v.3)

pub find_slot-fresh : (next : ℕ) (t : Table) → IsTable next t → find_slot next t ≡ none
unfolding find_slot
find_slot-fresh next [] v = refl
find_slot-fresh next (x ∷ t) v = ground (arith, find_slot-fresh next t v.3)

pub IsSound-find_slot :
    (next h : ℕ) (t : Table) {s : Session} → IsTable next t → find_slot h t ≡ some s → IsSound s
unfolding find_slot
IsSound-find_slot next h [] v e = absurd (ground arith)
IsSound-find_slot next h (x ∷ t) {s} v e = elim (Bool-cases (h == x.0)) [
  | inl q ↦ subst IsSound {x = x.1} {y = s} (ground arith) v.2
  | inr q ↦ IsSound-find_slot next h t {s = s} v.3 (ground arith)
]

IsTable-grows : (n m : ℕ) (t : Table) → n ≤ m → IsTable n t → IsTable m t
IsTable-grows n m [] h v = tt
IsTable-grows n m (x ∷ t) h v = (omega arith, v.1, v.2, IsTable-grows n m t h v.3)

pub find_slot-change_slot :
    (h k : ℕ) (s : Session) (t : Table) {old : Session}
    → find_slot h t ≡ some old
    → find_slot k (change_slot h s t) ≡ update (λ i. find_slot i t) h (some s) k
unfolding find_slot change_slot
find_slot-change_slot h k s [] e = absurd (ground arith)
find_slot-change_slot h k s (x ∷ t) {old} e =
    ground (arith, find_slot-change_slot h k s t {old = old})

find_slot-change_none :
    (h k : ℕ) (s : Session) (t : Table)
    → find_slot k t ≡ none
    → find_slot k (change_slot h s t) ≡ none
unfolding find_slot change_slot
find_slot-change_none h k s [] e = refl
find_slot-change_none h k s (x ∷ t) e = ground (arith, find_slot-change_none h k s t)

pub change_slot-IsTable :
    (next h : ℕ) (s : Session) (t : Table)
    → IsSound s
    → IsTable next t
    → IsTable next (change_slot h s t)
unfolding change_slot
change_slot-IsTable next h s [] w v = tt
change_slot-IsTable next h s (x ∷ t) w v =
    if-elim (IsTable next) (h == x.0) (v.0, v.1, w, v.3)
      (v.0, find_slot-change_none h x.0 s t v.1, v.2, change_slot-IsTable next h s t w v.3)

pub length-change_slot : (h : ℕ) (s : Session) (t : Table) → length (change_slot h s t) ≡ length t
unfolding change_slot
length-change_slot h s [] = refl
length-change_slot h s (x ∷ t) = ground (arith, length-change_slot h s t)

find_slot-erase_none :
    (h k : ℕ) (t : Table) → find_slot k t ≡ none → find_slot k (erase_slot h t) ≡ none
unfolding find_slot erase_slot
find_slot-erase_none h k [] e = refl
find_slot-erase_none h k (x ∷ t) e = ground (arith, find_slot-erase_none h k t)

pub find_slot-erase_slot :
    (next h k : ℕ) (t : Table)
    → IsTable next t
    → find_slot k (erase_slot h t) ≡ update (λ i. find_slot i t) h none k
unfolding find_slot erase_slot
find_slot-erase_slot next h k [] v = ground arith
find_slot-erase_slot next h k (x ∷ t) v = ground (arith, find_slot-erase_slot next h k t v.3)

pub erase_slot-IsTable : (next h : ℕ) (t : Table) → IsTable next t → IsTable next (erase_slot h t)
unfolding erase_slot
erase_slot-IsTable next h [] v = tt
erase_slot-IsTable next h (x ∷ t) v =
    if-elim (IsTable next) (h == x.0) v.3
      (v.0, find_slot-erase_none h x.0 t v.1, v.2, erase_slot-IsTable next h t v.3)

pub length-erase_slot :
    (h : ℕ) (t : Table) {s : Session}
    → find_slot h t ≡ some s
    → suc (length (erase_slot h t)) ≡ length t
unfolding find_slot erase_slot
length-erase_slot h [] e = absurd (ground arith)
length-erase_slot h (x ∷ t) {s} e = ground (arith, length-erase_slot h t {s = s})

pub emplace_slot-fresh :
    (next : ℕ) (s : Session) (t : Table) → IsTable next t → emplace_slot next s t ≡ (next, s) ∷ t
unfolding emplace_slot
emplace_slot-fresh next s t v = rw (find_slot-fresh next t v) refl

pub emplace_slot-IsTable :
    (next : ℕ) (s : Session) (t : Table)
    → IsSound s
    → IsTable next t
    → IsTable (suc next) ((next, s) ∷ t)
emplace_slot-IsTable next s t w v =
    (omega arith, find_slot-fresh next t v, w, IsTable-grows next (suc next) t (omega arith) v)
