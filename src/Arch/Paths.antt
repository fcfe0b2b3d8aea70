-- ===== src/Arch/Paths.antt =====
-- Python's `os.path.normpath` on POSIX, over native texts.
use text.Mathlib.Text.{starts_with}
use anima.Prelude.{[], ◌∷◌, refl, String, Bool, List, ◌≡◌, if◌then◌else◌, ◌==◌, ◌||◌, not, ◌&&◌}
use Prim.Native.Char.{code}
use anima.Prelude.Text.{concat, str_eq}

-- `path.split("/")`; the first part is kept apart, so that the result is never empty.
split_slash : String → String × List String
split_slash String.[] = ("", [])
split_slash (String.◌∷◌ c s) =
    let (first, rest) = split_slash s in
    if code c == b'/' then ("", first ∷ rest) else (String.◌∷◌ c first, rest)

abbrev parts : String → List String
parts s = let (first, rest) = split_slash s in first ∷ rest

-- One round of the loop over the components; those kept so far are in reverse order.
next_parts : Bool → List String → String → List String
next_parts absolute [] c =
    if str_eq c "" || str_eq c "."
    then []
    else if not (str_eq c "..") || not absolute
    then c ∷ []
    else []
next_parts absolute (last ∷ rest) c =
    if str_eq c "" || str_eq c "."
    then last ∷ rest
    else if not (str_eq c "..") || str_eq last ".."
    then c ∷ last ∷ rest
    else rest

fold_parts : Bool → List String → List String → List String
unfolding next_parts
fold_parts absolute kept [] = kept
fold_parts absolute kept (c ∷ cs) = fold_parts absolute (next_parts absolute kept c) cs

-- `"/".join` of components in reverse order, put before what is joined already.
join_reversed : String → List String → String
join_reversed tail [] = tail
join_reversed tail (c ∷ cs) = join_reversed (concat c (concat "/" tail)) cs

join_parts : List String → String
unfolding join_reversed
join_parts [] = ""
join_parts (c ∷ cs) = join_reversed c cs

-- Two leading slashes stay two; any other number of them becomes one.
leading_slashes : String → String
leading_slashes s =
    if starts_with s "/"
    then if starts_with s "//" && not (starts_with s "///") then "//" else "/"
    else ""

abbrev or_dot : String → String
or_dot s = if str_eq s "" then "." else s

unfoldable pub normpath : String → String
unfolding split_slash fold_parts join_parts leading_slashes
normpath path =
    if str_eq path ""
    then "."
    else let slashes = leading_slashes path in
      or_dot (concat slashes (join_parts (fold_parts (not (str_eq slashes "")) [] (parts path))))

normpath_runs :
    (normpath "/etc//nginx/./sites/../nginx.conf" ≡ "/etc/nginx/nginx.conf")
    × (normpath "/../a/.." ≡ "/")
    × (normpath "a/../.." ≡ "..")
    × (normpath "//x///y/" ≡ "//x/y")
unfolding normpath
normpath_runs = (refl, refl, refl, refl)
