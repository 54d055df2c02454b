-- ===== src/FileEdit/History.antt =====
-- tools/file_edit.rs: `EditHistory`.
pub mod Keys
pub mod Kept
pub mod Loops
use kitaebot.Common.{
  ℕ, suc, Bool, true, false, not, List, [], ◌∷◌, ◌++◌, Text, Option, none, some, length, keep_if,
  leb, ◌==◌, ◌=?◌, list_key, nat_key, get, insert, if◌then◌else◌, any,
}

abbrev pub recent_window : ℕ
recent_window = 8

abbrev pub max_paths : ℕ
max_paths = 32

pub record EditHistory : Type 0 where
  pub by_path : List (Text × List ℕ)
  pub order : List Text

abbrev pub no_edits : EditHistory
no_edits = record { by_path = []; order = [] }

unfoldable pub remove : Text → List (Text × List ℕ) → List (Text × List ℕ)
remove path [] = []
remove path ((p, ring) ∷ m) = if p =? path then remove path m else (p, ring) ∷ remove path m

unfoldable pub is_tracked : Text → List (Text × List ℕ) → Bool
is_tracked path [] = false
is_tracked path ((p, ring) ∷ m) = if p =? path then true else is_tracked path m

unfoldable pub evict : EditHistory → List Text → EditHistory
unfolding remove
evict h [] = h
evict h (oldest ∷ order) = record { by_path = remove oldest h.by_path; order = order }

-- The path gets a place, an older one's where the table is full.
unfoldable pub tracked : Text → EditHistory → EditHistory
unfolding is_tracked evict
tracked path h =
    let h' = if leb max_paths (length h.by_path) then evict h h.order else h in
    if is_tracked path h.by_path then h else record h' { order = h'.order ++ path ∷ [] }

unfoldable pub ring_of : Option (List ℕ) → List ℕ
ring_of none = []
ring_of (some ring) = ring

unfoldable pub pop_front : List ℕ → List ℕ
pop_front [] = []
pop_front (x ∷ xs) = xs

unfoldable pub pushed_back : ℕ → List ℕ → List ℕ
unfolding pop_front
pushed_back fingerprint ring =
    (if leb recent_window (length ring) then pop_front ring else ring) ++ fingerprint ∷ []

unfoldable pub occurrences : ℕ → List ℕ → ℕ
occurrences fingerprint ring = length (keep_if (λ f. f == fingerprint) ring)

unfoldable pub record_futile : Text → ℕ → EditHistory → EditHistory × ℕ
unfolding tracked ring_of pushed_back occurrences
record_futile path fingerprint h =
    let h' = tracked path h in
    let ring = pushed_back fingerprint (ring_of (get path h'.by_path)) in
    (record h' { by_path = insert path ring h'.by_path }, occurrences fingerprint ring)

unfoldable pub clear : Text → EditHistory → EditHistory
unfolding is_tracked remove
clear path h =
    if is_tracked path h.by_path
    then record { by_path = remove path h.by_path; order = keep_if (λ p. not (p =? path)) h.order }
    else h
