-- ===== src/Lcm/Writes.antt =====
-- context/lcm/compaction.rs: what the writes of both passes share: the summary's id, its times, the
-- links and the replaced range of context items.
pub mod Range
use kitaebot.Common.{
  ℕ, zero, suc, ◌+◌, ◌-◌, ◌*◌, ◌/◌, ◌%◌, Bool, true, false, ◌&&◌, ◌||◌, not, List, [], ◌∷◌, ◌++◌,
  map, concat, Option, none, some, Text, Result, ok, err, ◌>>=◌, ◌>>◌, codes, guard, ◌=?◌, list_key,
  nat_key, pair_key, length, take, sum_of, leb, ltb, any, keep_if, if◌then◌else◌,
}
use kitaebot.Trust.{lower}
use kitaebot.Lcm.Store.{
  Store, Item, summary, SummaryRow, LargeFile, EngineError, constraint, insert_item, delete_between,
}

-- `sha256` is the digest of a text, `find_file_ids` the matches of `FILE_ID_RE` in one.
pub record Hashes : Type 0 where
  pub sha256 : Text → Text
  pub find_file_ids : Text → List Text

-- The order of texts by their bytes.
unfoldable pub text_le : Text → Text → Bool
text_le [] t = true
text_le (a ∷ s) [] = false
text_le (a ∷ s) (b ∷ t) = ltb a b || (leb a b && text_le s t)

-- `iter().min().unwrap_or("")`, and the maximum.
unfoldable pub earliest : List Text → Text
unfolding text_le
earliest [] = []
earliest (t ∷ []) = t
earliest (t ∷ u ∷ us) = let rest = earliest (u ∷ us) in if text_le t rest then t else rest

unfoldable pub latest : List Text → Text
unfolding text_le
latest [] = []
latest (t ∷ []) = t
latest (t ∷ u ∷ us) = let rest = latest (u ∷ us) in if text_le t rest then rest else t

module _ {A : Type 0} (le : A → A → Bool) where
  unfoldable pub insert_sorted : A → List A → List A
  insert_sorted a [] = a ∷ []
  insert_sorted a (b ∷ bs) =
      let rest = insert_sorted a bs in if le a b then a ∷ b ∷ bs else b ∷ rest

  -- `sort_unstable`, for an order whose equal members are the same.
  unfoldable pub sort : List A → List A
  unfolding insert_sorted
  sort [] = []
  sort (a ∷ rest) = insert_sorted a (sort rest)

-- `to_le_bytes` of an `i64` that is not negative.
unfoldable pub le_bytes : ℕ → ℕ → Text
le_bytes zero n = []
le_bytes (suc width) n = n % 256 ∷ le_bytes width (n / 256)

unfoldable pub hex_digit : ℕ → ℕ
hex_digit d = if ltb d 10 then b'0' + d else b'a' + (d - 10)

unfoldable pub hex : Text → Text
unfolding hex_digit
hex [] = []
hex (b ∷ s) = hex_digit (b / 16) ∷ hex_digit (b % 16) ∷ hex s

unfoldable pub hashed : Text → List Text → Text
hashed content keys = content ++ concat (map (λ k. codes "|" ++ k) keys)

unfoldable pub unique_from : List Text → List Text → List Text
unique_from seen [] = []
unique_from seen (v ∷ vs) = elim (any (λ w. w =? v) seen) [
  | true ↦ unique_from seen vs
  | false ↦ v ∷ unique_from (v ∷ seen) vs
]

unfoldable pub unique_ordered : List Text → List Text
unfolding unique_from
unique_ordered vs = unique_from [] vs

module _ (h : Hashes) where
  open h use {sha256, find_file_ids}

  unfoldable pub derive_summary_id_inner : Text → List Text → Text
  unfolding hashed hex
  derive_summary_id_inner content sorted_keys =
      codes "sum_" ++ hex (take 8 (sha256 (hashed content sorted_keys)))

  unfoldable pub derive_summary_id : Text → List ℕ → Text
  unfolding derive_summary_id_inner sort le_bytes
  derive_summary_id content ids = derive_summary_id_inner content (map (le_bytes 8) (sort leb ids))

  unfoldable pub derive_summary_id_str : Text → List Text → Text
  unfolding derive_summary_id_inner sort text_le
  derive_summary_id_str content ids = derive_summary_id_inner content (sort text_le ids)

  unfoldable pub extract_file_ids : Text → List Text
  unfolding unique_ordered lower
  extract_file_ids content = unique_ordered (map lower (find_file_ids content))

-- `INSERT INTO summaries`, whose primary key is the id.
unfoldable pub insert_summary : SummaryRow → List SummaryRow → Result EngineError (List SummaryRow)
insert_summary r rows =
    if any (λ s. s.summary_id =? r.summary_id) rows then err constraint else ok (rows ++ r ∷ [])

-- `INSERT OR IGNORE INTO summary_files`.
unfoldable pub link_file : Text → Text → List (Text × Text) → List (Text × Text)
link_file id file links =
    if any (λ l. l =? (id, file)) links then links else links ++ (id, file) ∷ []

unfoldable pub link_files : Text → List Text → List (Text × Text) → List (Text × Text)
unfolding link_file
link_files id [] links = links
link_files id (f ∷ fs) links = link_files id fs (link_file id f links)

unfoldable pub last_of : ℕ → List ℕ → ℕ
last_of n [] = n
last_of n (m ∷ ms) = last_of m ms

-- The chunk's ordinals give way to the summary, at the first of them.
unfoldable pub replace_items : List ℕ → SummaryRow → List Item → Result EngineError (List Item)
unfolding delete_between insert_item last_of
replace_items [] r items =
    insert_item (record { ordinal = 0; entry = summary r }) (delete_between 0 0 items)
replace_items (first ∷ rest) r items =
    insert_item (record { ordinal = first; entry = summary r })
      (delete_between first (last_of first rest) items)
