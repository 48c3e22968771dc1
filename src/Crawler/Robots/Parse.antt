-- ===== src/Crawler/Robots/Parse.antt =====
-- internal/crawler/robots.go: the text of a robots.txt as groups of rules, and the group of a
-- crawler.
use feedla.Prelude.{
  ℕ, Bool, true, false, ◌||◌, Option, none, some, List, [], ◌∷◌, ◌++◌, ◌==◌, if◌then◌else◌,
}
use feedla.Crawler.Robots.{Bytes, bytes_eq, RobotsGroup, split, is_empty}

abbrev pub has_agent : Bytes → List Bytes → Bool
has_agent agent [] = false
has_agent agent (a ∷ agents) = bytes_eq a agent || has_agent agent agents

unfoldable pub first_with : Bytes → List RobotsGroup → Option RobotsGroup
first_with agent [] = none
first_with agent (g ∷ groups) =
    let later = first_with agent groups in if has_agent agent g.agents then some g else later

abbrev pub or_else : Option RobotsGroup → Option RobotsGroup → Option RobotsGroup
or_else none other = other
or_else (some g) other = some g

abbrev pub star : Bytes
star = b'*' ∷ []

-- `strings.IndexByte(line, c)` cuts the line: what stands before the byte, and what after it.
unfoldable pub cut : ℕ → Bytes → Option (Bytes × Bytes)
cut c [] = none
cut c (b ∷ line) = let rest = cut c line in if b == c then some ([], line) else push rest
  where
    push : Option (Bytes × Bytes) → Option (Bytes × Bytes)
    push none = none
    push (some (before, after)) = some (b ∷ before, after)

abbrev pub before_cut : Bytes → Option (Bytes × Bytes) → Bytes
before_cut line none = line
before_cut line (some (before, _)) = before

pub record TextOps : Type 0 where
  pub trim_space : Bytes → Bytes
  pub to_lower : Bytes → Bytes

abbrev pub user_agent_key : Bytes
user_agent_key = b'u' ∷ b's' ∷ b'e' ∷ b'r' ∷ b'-' ∷ b'a' ∷ b'g' ∷ b'e' ∷ b'n' ∷ b't' ∷ []

abbrev pub disallow_key : Bytes
disallow_key = b'd' ∷ b'i' ∷ b's' ∷ b'a' ∷ b'l' ∷ b'l' ∷ b'o' ∷ b'w' ∷ []

abbrev pub allow_key : Bytes
allow_key = b'a' ∷ b'l' ∷ b'l' ∷ b'o' ∷ b'w' ∷ []

-- The groups before the current one, the current one (a pointer to the last of `groups`), and
-- `startedRules`.
pub record Parser : Type 0 where
  pub earlier : List RobotsGroup
  pub current : Option RobotsGroup
  pub started_rules : Bool

abbrev pub empty_group : RobotsGroup
empty_group = record { agents = []; rules = [] }

abbrev pub as_list : Option RobotsGroup → List RobotsGroup
as_list none = []
as_list (some g) = g ∷ []

abbrev pub all_groups : Parser → List RobotsGroup
all_groups p = p.earlier ++ as_list p.current

-- `case "user-agent"`
unfoldable pub add_agent : Bytes → Option RobotsGroup → Parser → Parser
add_agent agent none p = record p {
  current = some (record { agents = agent ∷ []; rules = [] });
  started_rules = false;
}
add_agent agent (some g) p =
    if p.started_rules
    then record {
      earlier = p.earlier ++ g ∷ [];
      current = some (record { agents = agent ∷ []; rules = [] });
      started_rules = false;
    }
    else record p { current = some (record g { agents = g.agents ++ agent ∷ [] }) }

-- `case "disallow"` and `case "allow"`
unfoldable pub add_rule : Bool → Bytes → Option RobotsGroup → Parser → Parser
add_rule disallow val none p = p
add_rule disallow val (some g) p = record p {
  started_rules = true;
  current = some (
      if is_empty val
      then g
      else record g { rules = g.rules ++ record { disallow = disallow; pattern = val } ∷ [] });
}

module _ (ops : TextOps) where
  unfoldable pub parse_field : Option (Bytes × Bytes) → Parser → Parser
  unfolding add_agent add_rule
  parse_field none p = p
  parse_field (some (name, value)) p =
      if bytes_eq key user_agent_key
      then add_agent (ops.to_lower val) p.current p
      else if bytes_eq key disallow_key
      then add_rule true val p.current p
      else if bytes_eq key allow_key
      then add_rule false val p.current p
      else p
    where
      key : Bytes
      key = ops.to_lower (ops.trim_space name)

      val : Bytes
      val = ops.trim_space value

  unfoldable pub parse_line : Bytes → Parser → Parser
  unfolding parse_field cut
  parse_line raw_line p =
      let line = ops.trim_space (before_cut raw_line (cut b'#' raw_line)) in
      if is_empty line then p else parse_field (cut b':' line) p

  unfoldable pub parse_lines : List Bytes → Parser → Parser
  unfolding parse_line
  parse_lines [] p = p
  parse_lines (l ∷ ls) p = parse_lines ls (parse_line l p)

  unfoldable pub parse_robots_txt : Bytes → List RobotsGroup
  unfolding parse_lines split
  parse_robots_txt body =
      all_groups (
        parse_lines (split 10 body)
          (record { earlier = []; current = none; started_rules = false }))

  unfoldable pub select_group : List RobotsGroup → Bytes → Option RobotsGroup
  unfolding first_with
  select_group groups ua_token =
      or_else (first_with (ops.to_lower ua_token) groups) (first_with star groups)
