-- ===== src/Matlab/Table.antt =====
-- The table of open sessions in dfone_mex.cpp: `sessions()`, an unordered_map from handles, as an
-- association list without its order.
pub mod Laws
use antsdr_dfone.Prelude.{
  ℕ, ◌+◌, ◌%◌, ◌^◌, Bool, List, [], ◌∷◌, Option, some, none, ◌==◌, if◌then◌else◌, length,
}
use antsdr_dfone.Session.{Session}

abbrev pub Table : Type 0
Table = List (ℕ × Session)

-- `sessions().find(handle)`.
unfoldable pub find_slot : ℕ → Table → Option Session
find_slot h [] = none
find_slot h ((k, s) ∷ t) = if h == k then some s else find_slot h t

abbrev pub has_slot : ℕ → Table → Option Session → Table → Table
has_slot h t none fresh = fresh
has_slot h t (some s) fresh = t

-- `emplace`, which leaves a slot that is there.
unfoldable pub emplace_slot : ℕ → Session → Table → Table
unfolding find_slot
emplace_slot h s t = has_slot h t (find_slot h t) ((h, s) ∷ t)

-- `erase`.
unfoldable pub erase_slot : ℕ → Table → Table
erase_slot h [] = []
erase_slot h ((k, s) ∷ t) = if h == k then t else (k, s) ∷ erase_slot h t

-- A method changes the session that its slot points to.
unfoldable pub change_slot : ℕ → Session → Table → Table
change_slot h s [] = []
change_slot h s ((k, old) ∷ t) = if h == k then (k, s) ∷ t else (k, old) ∷ change_slot h s t

-- What the binding keeps between calls, with the count of mexLock less that of mexUnlock.
pub record MexState : Type 0 where
  pub sessions : Table
  pub next_handle : ℕ
  pub locks : ℕ

abbrev pub new_mex : MexState
new_mex = record { sessions = []; next_handle = 1; locks = 0 }

-- `cleanup`, at exit.
abbrev pub cleanup : MexState → MexState
cleanup st = record st { sessions = [] }

-- `next_handle()++` on 64 bits.
abbrev pub next_of : ℕ → ℕ
next_of h = (h + 1) % 2 ^ 64
