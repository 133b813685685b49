-- ===== src/Reply/Cleanup.antt =====
-- `sanitizeReply` of src/utils/reply-format.ts.
use ubot_ai_agent.Base.{
  ℕ, ◌==◌, if◌then◌else◌, Bool, false, not, ◌&&◌, ◌||◌, List, [], ◌∷◌, ◌++◌, map, Text, codes,
  is_space, trim, trim_start, filter,
}
use ubot_ai_agent.Reply.Pieces.{is_one_of, filled, split_lines, collapse}

-- `text.replace(/\r\n/g, "\n")`
unfoldable pub unify_breaks : Text → Text
unify_breaks [] = []
unify_breaks (c ∷ []) = c ∷ []
unify_breaks (c ∷ d ∷ s) =
    let rest = unify_breaks (d ∷ s) in if c == 13 && d == 10 then rest else c ∷ rest

-- `-` and `—`
abbrev pub is_dash : ℕ → Bool
is_dash c = c == 45 || c == 8212

unfoldable pub drop_dashes : Text → Text
drop_dashes [] = []
drop_dashes (c ∷ s) = if is_dash c then drop_dashes s else c ∷ s

unfoldable pub drop_bullet : Text → Text → Text
unfolding drop_dashes
drop_bullet line [] = line
drop_bullet line (c ∷ s) = if is_dash c then trim_start (drop_dashes s) else line

-- `line.replace(/^\s*[-—]+\s*/g, "").replace(/\s+/g, " ").trim()`
unfoldable pub clean_line : Text → Text
unfolding drop_bullet collapse
clean_line line = trim (collapse is_space 32 (drop_bullet line (trim_start line)))

unfoldable pub join_lines : ℕ → List Text → Text
join_lines joiner [] = []
join_lines joiner (line ∷ []) = line
join_lines joiner (line ∷ next ∷ lines) = line ++ joiner ∷ join_lines joiner (next ∷ lines)

-- `[ \t]`
abbrev pub is_blank : ℕ → Bool
is_blank c = c == 32 || c == 9

unfoldable pub before_mark : Text → Bool
before_mark [] = false
before_mark (c ∷ s) = if is_blank c then before_mark s else is_one_of (codes "，。！？；,.!?;:") c

-- `text.replace(/[ \t]+([，。！？；,.!?;:])/g, "$1")`: a blank goes if only blanks stand between it and
-- a mark.
unfoldable pub join_marks : Text → Text
unfolding before_mark
join_marks [] = []
join_marks (c ∷ s) =
    let rest = join_marks s in if is_blank c && before_mark s then rest else c ∷ rest

unfoldable pub sanitize_reply : Text → Bool → Bool → Text
unfolding unify_breaks clean_line join_lines join_marks split_lines
sanitize_reply text strip_asterisks respect_line_breaks =
    let unified = unify_breaks text in
    let normalized =
      if strip_asterisks then filter (λ c. not (c == 42 || c == 65290)) unified else unified in
    trim (
      join_marks (
        join_lines (if respect_line_breaks then 10 else 32)
          (filled (map clean_line (split_lines [] normalized)))))
