-- ===== src/Cluster/Selects.antt =====
-- Which columns the rows of an answer can have: those that the statement selects.
use xorc_gateway.Base.{
  ℕ, Bool, true, false, ◌||◌, ◌≡◌, some, none, List, [], ◌∷◌, All, Text, text, ◌==◌, text_eq, ℕ_eq,
  if◌then◌else◌,
}
use xorc_gateway.Cluster.{Cluster, Query, Row}

-- The first part of a text is continued with a byte.
abbrev continue : ℕ → List Text → List Text
continue b [] = (b ∷ []) ∷ []
continue b (part ∷ parts) = (b ∷ part) ∷ parts

-- The words of a statement, between its blanks and commas.
unfoldable pub split_words : Text → List Text
split_words [] = [] ∷ []
split_words (b ∷ bytes) =
    let parts = split_words bytes in if b == 32 || b == 44 then [] ∷ parts else continue b parts

-- Whether a column is among the words up to `FROM`.
unfoldable pub is_selected : Text → List Text → Bool
is_selected name [] = false
is_selected name (word ∷ words) =
    let rest = is_selected name words in
    if word == text "FROM" then false else (word == name || word == text "*" || rest)

-- Whether a statement may answer with a column; only of a `SELECT` is it known which it may not.
unfoldable pub may_answer : Text → Text → Bool
unfolding split_words is_selected
may_answer statement name = elim (split_words statement) [
  | [] ↦ true
  | verb ∷ words ↦ if verb == text "SELECT" then is_selected name words else true
]

abbrev pub Lacks : Text → Row → Type 0
Lacks name row = (row.uuid_by_name name ≡ none) × (row.text_by_name name ≡ none)

-- The rows of an answer have no column but those that the statement selects.
pub record HonoursSelect (C : Cluster) : Type 0 where
  pub selects :
      (q : Query) (s : Cluster.State C) (rows : List Row) (name : Text)
      → (Cluster.query C q s).0 ≡ some (record { body = some (some rows) })
      → may_answer q.statement name ≡ false
      → All (Lacks name) rows
