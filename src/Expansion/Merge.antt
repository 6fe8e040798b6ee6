-- ===== src/Expansion/Merge.antt =====
-- `_merge_intervals` (api/services/expansion.py): windows of chunk indexes, both ends included.
use embedbase.Prelude.{
  Bool, Bool-cases, List, [], any_of, arith, if◌then◌else◌, inl, inr, leb, ltb, max, nat_eq, refl,
  ℕ, ◌&&◌, ◌+◌, ◌<◌, ◌||◌, ◌∙◌, ◌∷◌, ◌≡◌, ◌≤◌,
}

abbrev pub Window : Type 0
Window = ℕ × ℕ

-- Python's order of tuples
abbrev pub window_le : Window → Window → Bool
window_le (a, b) (c, d) = ltb a c || (nat_eq a c && leb b d)

abbrev insert_window : Window → List Window → List Window
insert_window w [] = w ∷ []
insert_window w (v ∷ vs) =
    let rest = insert_window w vs in if window_le w v then w ∷ v ∷ vs else v ∷ rest

-- `sorted(windows)`
abbrev sort_windows : List Window → List Window
sort_windows [] = []
sort_windows (w ∷ ws) = insert_window w (sort_windows ws)

-- the loop, from the span it has open (`spans[-1]`) on
abbrev merge_from : Window → List Window → List Window
merge_from span [] = span ∷ []
merge_from (lo, hi) ((start, end) ∷ ws) =
    let fused = merge_from (lo, max hi end) ws in
    let apart = merge_from (start, end) ws in if leb start (hi + 1) then fused else (lo, hi) ∷ apart

abbrev merge_sorted : List Window → List Window
merge_sorted [] = []
merge_sorted (w ∷ ws) = merge_from w ws

unfoldable pub merge_intervals : List Window → List Window
merge_intervals windows = merge_sorted (sort_windows windows)

abbrev pub within : ℕ → Window → Bool
within i (start, end) = leb start i && leb i end

-- Each window starts no earlier than the one before it.
abbrev StartsFrom : ℕ → List Window → Type 0
StartsFrom lo [] = Unit
StartsFrom lo ((start, end) ∷ ws) = (lo ≤ start) × StartsFrom start ws

-- Each span leaves a gap of an index at least after the one before it.
abbrev pub GapsFrom : ℕ → List Window → Type 0
GapsFrom hi [] = Unit
GapsFrom hi ((start, end) ∷ spans) = (hi + 1 < start) × GapsFrom end spans

abbrev pub IsSeparated : List Window → Type 0
IsSeparated [] = Unit
IsSeparated ((start, end) ∷ spans) = GapsFrom end spans

any_of-insert_window :
    (p : Window → Bool) (w : Window) (ws : List Window)
    → any_of p (insert_window w ws) ≡ (p w || any_of p ws)
any_of-insert_window p w [] = refl
any_of-insert_window p w (v ∷ vs) = ground (arith, any_of-insert_window p w vs)

any_of-sort_windows :
    (p : Window → Bool) (ws : List Window) → any_of p (sort_windows ws) ≡ any_of p ws
any_of-sort_windows p [] = refl
any_of-sort_windows p (w ∷ ws) =
    any_of-insert_window p w (sort_windows ws) ∙ ground (arith, any_of-sort_windows p ws)

StartsFrom-insert_window :
    (lo : ℕ) (w : Window) (ws : List Window)
    → lo ≤ w.0
    → StartsFrom lo ws
    → StartsFrom lo (insert_window w ws)
StartsFrom-insert_window lo w [] h s = (h, tt)
StartsFrom-insert_window lo (a, b) ((c, d) ∷ vs) h s = elim (Bool-cases (window_le (a, b) (c, d))) [
  | inl e ↦ rw e (h, (ground arith, s.1))
  | inr e ↦ rw e (s.0, StartsFrom-insert_window c (a, b) vs (ground arith) s.1)
]

sort_windows-StartsFrom : (ws : List Window) → StartsFrom 0 (sort_windows ws)
sort_windows-StartsFrom [] = tt
sort_windows-StartsFrom (w ∷ ws) =
    StartsFrom-insert_window 0 w (sort_windows ws) (omega arith) (sort_windows-StartsFrom ws)

StartsFrom-mono : (lo lo' : ℕ) (ws : List Window) → lo ≤ lo' → StartsFrom lo' ws → StartsFrom lo ws
StartsFrom-mono lo lo' [] h s = tt
StartsFrom-mono lo lo' ((start, end) ∷ ws) h s = (omega (arith, h, s.0), s.1)

within-fused :
    (i lo hi start end : ℕ)
    → lo ≤ start
    → start ≤ hi + 1
    → within i (lo, max hi end) ≡ (within i (lo, hi) || within i (start, end))
within-fused i lo hi start end h s = ground arith

any_of-merge_from :
    (i lo hi : ℕ) (ws : List Window)
    → StartsFrom lo ws
    → any_of (within i) (merge_from (lo, hi) ws) ≡ (within i (lo, hi) || any_of (within i) ws)
any_of-merge_from i lo hi [] s = refl
any_of-merge_from i lo hi ((start, end) ∷ ws) s = elim (Bool-cases (leb start (hi + 1))) [
  | inl e ↦ rw e (
      any_of-merge_from i lo (max hi end) ws (StartsFrom-mono lo start ws s.0 s.1)
      ∙ ground (arith, within-fused i lo hi start end s.0 (ground arith)))
  | inr e ↦ rw e (ground (arith, any_of-merge_from i start end ws s.1))
]

merge_from-GapsFrom :
    (b lo hi : ℕ) (ws : List Window) → b + 1 < lo → GapsFrom b (merge_from (lo, hi) ws)
merge_from-GapsFrom b lo hi [] h = (h, tt)
merge_from-GapsFrom b lo hi ((start, end) ∷ ws) h = elim (Bool-cases (leb start (hi + 1))) [
  | inl e ↦ rw e (merge_from-GapsFrom b lo (max hi end) ws h)
  | inr e ↦ rw e (h, merge_from-GapsFrom hi start end ws (ground arith))
]

merge_from-IsSeparated : (lo hi : ℕ) (ws : List Window) → IsSeparated (merge_from (lo, hi) ws)
merge_from-IsSeparated lo hi [] = tt
merge_from-IsSeparated lo hi ((start, end) ∷ ws) = elim (Bool-cases (leb start (hi + 1))) [
  | inl e ↦ rw e (merge_from-IsSeparated lo (max hi end) ws)
  | inr e ↦ rw e (merge_from-GapsFrom hi start end ws (ground arith))
]

merge_sorted-IsSeparated : (ws : List Window) → IsSeparated (merge_sorted ws)
merge_sorted-IsSeparated [] = tt
merge_sorted-IsSeparated ((lo, hi) ∷ ws) = merge_from-IsSeparated lo hi ws

any_of-merge_sorted :
    (i lo : ℕ) (ws : List Window)
    → StartsFrom lo ws
    → any_of (within i) (merge_sorted ws) ≡ any_of (within i) ws
any_of-merge_sorted i lo [] s = refl
any_of-merge_sorted i lo ((start, end) ∷ ws) s = any_of-merge_from i start end ws s.1

-- Merging windows yields spans in rising order, each with a gap of an index at least before the
-- next, that cover exactly the indexes which the windows cover.
pub merge_intervals-exact :
    (windows : List Window) (i : ℕ)
    → IsSeparated (merge_intervals windows)
      × (any_of (within i) (merge_intervals windows) ≡ any_of (within i) windows)
unfolding merge_intervals
merge_intervals-exact windows i = (
  merge_sorted-IsSeparated (sort_windows windows),
  any_of-merge_sorted i 0 (sort_windows windows) (sort_windows-StartsFrom windows)
      ∙ any_of-sort_windows (within i) windows,
)
