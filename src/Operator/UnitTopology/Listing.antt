-- ===== src/Operator/UnitTopology/Listing.antt =====
-- How anima/kernel/unit_topology.py reads the unit names in the lines that
-- `systemctl list-dependencies` prints, on the characters of a line.
use anima.Prelude.{
  [], is_space, ℕ, String, Bool, ◌||◌, leb, if◌then◌else◌, ◌==◌, ◌&&◌, ◌∷◌, none, some, str_eq,
  Option, List,
}
use Prim.Native.Char.{Char, code}
use anima.Operator.UnitTopology.Floor.{floor_closure}

-- `[\s●├─└│•]`
unfoldable pub is_tree_char : ℕ → Bool
unfolding is_space
is_tree_char c =
    is_space c
    || (c == 9679 || (c == 9500 || (c == 9472 || (c == 9492 || (c == 9474 || c == 8226)))))

abbrev pub is_lower : ℕ → Bool
is_lower c = leb b'a' c && leb c b'z'

-- `^[\s●├─└│•]+`, put away.
unfoldable pub drop_tree : String → String
unfolding is_tree_char
drop_tree String.[] = ""
drop_tree (String.◌∷◌ c s) = if is_tree_char (code c) then drop_tree s else String.◌∷◌ c s

-- `s.strip()`, where nothing is left to strip in front.
abbrev before_blank : Char → String → String
before_blank c rest = if is_space (code c) && str_eq rest "" then "" else String.◌∷◌ c rest

unfoldable pub strip_end : String → String
unfolding is_space
strip_end String.[] = ""
strip_end (String.◌∷◌ c s) = before_blank c (strip_end s)

-- `_strip_tree_prefix`
unfoldable pub strip_tree_prefix : String → String
unfolding drop_tree strip_end
strip_tree_prefix line = strip_end (drop_tree line)

-- `[a-z]+` at the start of a text, as far as it goes.
unfoldable pub lower_run : String → String
lower_run String.[] = ""
lower_run (String.◌∷◌ c s) = if is_lower (code c) then String.◌∷◌ c (lower_run s) else ""

-- `\.[a-z]+` at the start of a text.
abbrev pub dotted : Char → String → Option String
dotted dot run = if str_eq run "" then none else some (String.◌∷◌ dot run)

unfoldable pub suffix_match : String → Option String
unfolding lower_run
suffix_match String.[] = none
suffix_match (String.◌∷◌ c s) = if code c == b'.' then dotted c (lower_run s) else none

abbrev pub or_else : Option String → Option String → Option String
or_else none other = other
or_else (some m) other = some m

abbrev pub after : Char → Option String → Option String
after c none = none
after c (some m) = some (String.◌∷◌ c m)

-- `letter` tells the letters beyond ASCII.
module _ (letter : ℕ → Bool) where
  -- `[\w@:\\/._-]`
  unfoldable pub is_unit_char : ℕ → Bool
  is_unit_char c =
      is_lower c
      || (leb b'A' c && leb c b'Z'
          || (leb b'0' c && leb c b'9'
              || (c == b'_'
                  || (c == b'@'
                      || (c == b':'
                          || (c == 92
                              || (c == b'/'
                                  || (c == b'.' || (c == b'-' || (leb 128 c && letter c))))))))))

  -- `[\w@:\\/._-]*\.[a-z]+`: the longest run of the class that leaves a suffix.
  unfoldable pub name_tail : String → Option String
  unfolding is_unit_char suffix_match
  name_tail String.[] = none
  name_tail (String.◌∷◌ c s) =
      let rest = name_tail s in
      if is_unit_char (code c) then or_else (after c rest) (suffix_match (String.◌∷◌ c s)) else none

  -- `_UNIT_NAME_RE.match`
  unfoldable pub match_unit_name : String → Option String
  unfolding is_unit_char name_tail
  match_unit_name String.[] = none
  match_unit_name (String.◌∷◌ c s) = if is_unit_char (code c) then after c (name_tail s) else none

  abbrev pub add_unit : Option String → List String → List String
  add_unit none units = units
  add_unit (some unit) units = unit ∷ units

  unfoldable pub listed_units : List String → List String
  unfolding match_unit_name strip_tree_prefix
  listed_units [] = []
  listed_units (line ∷ lines) =
      add_unit (match_unit_name (strip_tree_prefix line)) (listed_units lines)

  -- `compute_floor_closure`, on the lines of the listing.
  unfoldable pub compute_floor_closure : List String → List String
  unfolding listed_units floor_closure
  compute_floor_closure lines = floor_closure (listed_units lines)
