-- ===== src/Maintenance/Text/Lines.antt =====
-- What the reader of key=value texts makes of a line that a writer has put there.
use antsdr_dfone.Prelude.{
  ℕ, ◌≡◌, ◌≢◌, refl, ap, ◌∙◌, Bool, true, not, ◌&&◌, List, [], ◌∷◌, ◌++◌, some, ◌==◌, arith, Bytes,
}
use antsdr_dfone.Maintenance.Text.{
  is_space, trim_left, trim_right, trim_copy, lines, pop_cr, cut_comment, split_equals, Values,
  store, entry, blank, unless_blank, pair_of, entry_of, parse_line, parse_lines,
}

-- The byte is not in the text.
abbrev pub lacks : ℕ → Bytes → Bool
lacks x [] = true
lacks x (c ∷ cs) = not (c == x) && lacks x cs

-- The text does not begin with white space; it does not end with it.
abbrev pub starts_clean : Bytes → Bool
starts_clean [] = true
starts_clean (c ∷ cs) = not (is_space c)

abbrev pub ends_clean : Bytes → Bool
ends_clean [] = true
ends_clean (c ∷ []) = not (is_space c)
ends_clean (c ∷ d ∷ ds) = ends_clean (d ∷ ds)

-- A text that a value can be: one line, without a comment sign, and without white space around it.
pub record IsClean (v : Bytes) : Type 0 where
  pub one_line : lacks b'\n' v ≡ true
  pub no_comment : lacks b'#' v ≡ true
  pub left_clean : starts_clean v ≡ true
  pub right_clean : ends_clean v ≡ true

-- A text that a key can be.
pub record IsKey (k : Bytes) : Type 0 where
  pub is_clean : IsClean k
  pub no_equals : lacks b'=' k ≡ true
  pub not_empty : k ≢ []

pub trim_left-clean : (v : Bytes) → starts_clean v ≡ true → trim_left v ≡ v
unfolding trim_left
trim_left-clean [] h = refl
trim_left-clean (c ∷ cs) h = ground arith

pub trim_right-clean : (v : Bytes) → ends_clean v ≡ true → trim_right v ≡ v
unfolding trim_right
trim_right-clean [] h = refl
trim_right-clean (c ∷ []) h = ground arith
trim_right-clean (c ∷ d ∷ ds) h = rw (trim_right-clean (d ∷ ds) h) refl

pub trim_copy-clean : (v : Bytes) → starts_clean v ≡ true → ends_clean v ≡ true → trim_copy v ≡ v
unfolding trim_copy
trim_copy-clean v h k = ap trim_right (trim_left-clean v h) ∙ trim_right-clean v k

pop_cr-clean : (v : Bytes) → ends_clean v ≡ true → pop_cr v ≡ v
unfolding pop_cr
pop_cr-clean [] h = refl
pop_cr-clean (c ∷ []) h = ground arith
pop_cr-clean (c ∷ d ∷ ds) h = ap (◌∷◌ c) (pop_cr-clean (d ∷ ds) h)

cut_comment-clean : (v : Bytes) → lacks b'#' v ≡ true → cut_comment v ≡ v
unfolding cut_comment
cut_comment-clean [] h = refl
cut_comment-clean (c ∷ cs) h = ground (arith, cut_comment-clean cs)

lacks-append : (x : ℕ) (u v : Bytes) → lacks x u ≡ true → lacks x v ≡ true → lacks x (u ++ v) ≡ true
lacks-append x [] v h k = k
lacks-append x (c ∷ cs) v h k = ground (arith, lacks-append x cs v)

starts_clean-append : (u v : Bytes) → u ≢ [] → starts_clean (u ++ v) ≡ starts_clean u
starts_clean-append [] v h = absurd (h refl)
starts_clean-append (c ∷ cs) v h = refl

ends_clean-append : (u : Bytes) (c : ℕ) (v : Bytes) → ends_clean (u ++ c ∷ v) ≡ ends_clean (c ∷ v)
ends_clean-append [] c v = refl
ends_clean-append (a ∷ []) c v = refl
ends_clean-append (a ∷ b ∷ bs) c v = ends_clean-append (b ∷ bs) c v

ends_clean-equals : (v : Bytes) → ends_clean v ≡ true → ends_clean (b'=' ∷ v) ≡ true
ends_clean-equals [] h = refl
ends_clean-equals (c ∷ cs) h = h

split_equals-first :
    (k v : Bytes) → lacks b'=' k ≡ true → split_equals (k ++ b'=' ∷ v) ≡ some (k, v)
unfolding split_equals
split_equals-first [] v h = refl
split_equals-first (c ∷ cs) v h = ground (arith, split_equals-first cs v)

-- A line of a key, an equals sign and a value is that pair.
pub parse_line-entry : (k v : Bytes) → IsKey k → IsClean v → parse_line (k ++ b'=' ∷ v) ≡ entry k v
unfolding parse_line
parse_line-entry [] v a b = absurd (a.not_empty refl)
parse_line-entry (c ∷ cs) v a b =
    let k = c ∷ cs in
    let line = k ++ b'=' ∷ v in
    let right : ends_clean line ≡ true =
      ends_clean-append k b'=' v ∙ ends_clean-equals v b.right_clean in
    let left : starts_clean line ≡ true =
      starts_clean-append k (b'=' ∷ v) a.not_empty ∙ a.is_clean.left_clean in
    let uncut : lacks b'#' line ≡ true =
      lacks-append b'#' k (b'=' ∷ v) a.is_clean.no_comment b.no_comment in
    let whole : trim_copy (cut_comment (pop_cr line)) ≡ line =
      ap (λ l. trim_copy (cut_comment l)) (pop_cr-clean line right)
      ∙ ap trim_copy (cut_comment-clean line uncut)
      ∙ trim_copy-clean line left right in
    ap unless_blank whole
    ∙ ap pair_of (split_equals-first k v a.no_equals)
    ∙ ap (λ x. entry_of x (trim_copy v))
        (trim_copy-clean k a.is_clean.left_clean a.is_clean.right_clean)
    ∙ ap (entry k) (trim_copy-clean v b.left_clean b.right_clean)

pub lines-line :
    (l rest : Bytes) → lacks b'\n' l ≡ true → lines (l ++ b'\n' ∷ rest) ≡ l ∷ lines rest
unfolding lines
lines-line [] rest h = refl
lines-line (c ∷ cs) rest h = ground (arith, lines-line cs rest)

pub parse_lines-entry :
    (l : Bytes) (ls : List Bytes) (m : Values) {k v : Bytes}
    → parse_line l ≡ entry k v
    → parse_lines (l ∷ ls) m ≡ parse_lines ls (store k v m)
unfolding parse_lines
parse_lines-entry l ls m e = rw (e, parse_lines)

pub parse_lines-blank :
    (l : Bytes) (ls : List Bytes) (m : Values)
    → parse_line l ≡ blank
    → parse_lines (l ∷ ls) m ≡ parse_lines ls m
unfolding parse_lines
parse_lines-blank l ls m e = rw (e, parse_lines)

pub lacks-line : (k v : Bytes) → IsKey k → IsClean v → lacks b'\n' (k ++ b'=' ∷ v) ≡ true
lacks-line k v a b = lacks-append b'\n' k (b'=' ∷ v) a.is_clean.one_line b.one_line
